-- ===== src/Tests/GreenevQueues.antt =====
-- The queues of greenev/cmdq_ev.c and greenev/cmdq_cv.c, with three cells.
use striga2_pocs.Base.{ℕ, ◌+◌, ◌*◌, ◌≡◌, refl, true, some, List, [], ◌∷◌, arith, length}
use striga2_pocs.Calls.{returns, mutex_init, cond_init, async_init, cond_timedwait}
use striga2_pocs.Fifo.{Request, put, get, respond_all, serve_all, each, drained}
use striga2_pocs.Greenev.Cmd.{Cmd}
use striga2_pocs.Greenev.CmdQEv.{WatcherCmdQ, watcher_cmd_q_new, on_watcher_cmd_q_async}
use striga2_pocs.Greenev.CmdQEv.Drain.{
  watcher_cmd_q_queue, watcher_cmd_q-eq-fifo, Keeps, on_watcher_cmd_q_async-drains,
}
use striga2_pocs.Greenev.CmdQCv.Refines.{cond_cmd_q_queue, cond_cmd_q-eq-fifo}
use striga2_pocs.Greenev.CmdQCv.{
  CondCmdQ, cond_cmd_q_new, cond_cmd_q_empty, cond_cmd_q_put, cond_cmd_q_timed_put, cond_cmd_q_get,
  cond_cmd_q_timed_get,
}
use striga2_pocs.Greenev.CmdQCv.Timeout.{Timeval, nanoseconds, cond_cmd_q_getabstimeout}
use striga2_pocs.Greenev.CmdQCv.Wait.{Wake, timed_wait_while}
use striga2_pocs.Greenev.CmdQCv.Deadline.{calls_of, repeated, one_deadline}
use striga2_pocs.Greenev.CmdQCv.Indices.{Represents}
use striga2_pocs.Greenev.CmdQCv.Put.{PutResult, TimedPutResult, put_ends, timed_put_ends}
use striga2_pocs.Greenev.CmdQCv.Get.{GetResult, TimedGetResult, get_ends, timed_get_ends}
use striga2_pocs.Greenev.PyApi.{py_geapi_py_thread_next_cmd}
use striga2_pocs.Greenev.PyApi.Next.{NextResult, next_cmd-takes}

abbrev first : Cmd
first = record { id = 1; arg = 11 }

abbrev second : Cmd
second = record { id = 2; arg = 12 }

abbrev cells : List Cmd
cells = first ∷ second ∷ first ∷ []

abbrev requests : List (Request Cmd)
requests = put first ∷ put second ∷ put first ∷ get ∷ put second ∷ get ∷ get ∷ get ∷ []

watcher_cmd_q-eq-fifo_example :
    (this : WatcherCmdQ) × (watcher_cmd_q_new 3 77 (some cells)
      ≡ returns (some this, mutex_init ∷ async_init ∷ []))
    × (respond_all (watcher_cmd_q_queue 3) this requests ≡ serve_all 2 [] requests)
watcher_cmd_q-eq-fifo_example =
    watcher_cmd_q-eq-fifo 3 77 cells requests (omega arith) (omega arith) refl

cond_cmd_q-eq-fifo_example :
    (this : CondCmdQ) × (cond_cmd_q_new 3 (some cells) 0 0 0
      ≡ returns (some this, mutex_init ∷ cond_init 0 ∷ cond_init 1 ∷ []))
    × (respond_all (cond_cmd_q_queue 3) this requests ≡ serve_all 2 [] requests)
cond_cmd_q-eq-fifo_example = cond_cmd_q-eq-fifo 3 cells requests (omega arith) (omega arith) refl

abbrev one_watched : WatcherCmdQ
one_watched = record { q_size = 3; q_head = 0; q_tail = 2; callbackarg = 77; q = cells }

one_watched-Keeps : Keeps one_watched 3 77 (first ∷ [])
one_watched-Keeps = record {
  represents = record {
    small = omega arith;
    cells = record {
      room = refl;
      fits = omega arith;
      tail_in = omega arith;
      meets = refl;
      window = (refl, tt);
    };
  };
  sized = refl;
  owned = refl;
}

-- The callback collects the arguments.
abbrev collect : ℕ → Cmd → List ℕ → List ℕ
collect callbackarg cmd seen = cmd.arg ∷ callbackarg ∷ seen

on_watcher_cmd_q_async-drains_example :
    let arrivals = (second ∷ []) ∷ [] in
    (this' : WatcherCmdQ) × (on_watcher_cmd_q_async collect 3 arrivals one_watched []
      ≡ some (this', each (collect 77) (drained 2 arrivals (first ∷ [])) []))
    × Keeps this' 3 77 []
on_watcher_cmd_q_async-drains_example =
    on_watcher_cmd_q_async-drains collect 3 ((second ∷ []) ∷ []) one_watched [] 3 77 (first ∷ [])
      one_watched-Keeps (omega arith)

-- Two commands, round the end of the array, and none.
abbrev wrapped : CondCmdQ
wrapped = record { q_size = 3; q_head = 1; q_tail = 2; q = cells }

abbrev vacant : CondCmdQ
vacant = record { q_size = 3; q_head = 1; q_tail = 1; q = cells }

wrapped-Represents : Represents wrapped 3 (first ∷ first ∷ [])
wrapped-Represents = record {
  small = omega arith;
  sized = refl;
  cells = record {
    room = refl;
    fits = omega arith;
    tail_in = omega arith;
    meets = refl;
    window = (refl, (refl, tt));
  };
}

vacant-Represents : Represents vacant 3 []
vacant-Represents = record {
  small = omega arith;
  sized = refl;
  cells = record {
    room = refl;
    fits = omega arith;
    tail_in = omega arith;
    meets = refl;
    window = tt;
  };
}

abbrev waking : CondCmdQ → Wake CondCmdQ
waking this = record { err = 0; after = this; now = record { tv_sec = 100; tv_usec = 5 } }

abbrev Sized : CondCmdQ → Type 0
Sized this = this.q_size ≡ 3

-- A producer at a full queue that finds it empty when it wakes, and a consumer at an empty one.
put_ends_example : PutResult Sized 3 second (cond_cmd_q_put wrapped 2 12 0 (waking vacant ∷ []) 0)
put_ends_example =
    put_ends Sized 3 2 12 wrapped (waking vacant ∷ [])
      ((refl, ((first ∷ first ∷ []), wrapped-Represents)), (refl, ([], vacant-Represents)))

timed_put_ends_example :
    TimedPutResult Sized 3 second
      (cond_cmd_q_timed_put 110 wrapped 2 12 1500 0 (waking vacant ∷ []) 0)
timed_put_ends_example =
    timed_put_ends Sized 3 2 12 110 wrapped 1500 (waking vacant ∷ [])
      ((refl, ((first ∷ first ∷ []), wrapped-Represents)), (refl, ([], vacant-Represents)))

get_ends_example : GetResult Sized 3 (cond_cmd_q_get vacant 0 (waking wrapped ∷ []) 0)
get_ends_example =
    get_ends Sized 3 vacant (waking wrapped ∷ [])
      ((refl, ([], vacant-Represents)), (refl, ((first ∷ first ∷ []), wrapped-Represents)))

timed_get_ends_example :
    TimedGetResult Sized 3 (cond_cmd_q_timed_get 110 vacant 1500 0 (waking wrapped ∷ []) 0)
timed_get_ends_example =
    timed_get_ends Sized 3 110 vacant 1500 (waking wrapped ∷ [])
      ((refl, ([], vacant-Represents)), (refl, ((first ∷ first ∷ []), wrapped-Represents)))

next_cmd-takes_example : NextResult Sized 3 (
    py_geapi_py_thread_next_cmd true true
      (some (record { cmd_q = vacant }))
      110
      1500
      0
      (waking wrapped ∷ [])
      0)
next_cmd-takes_example =
    next_cmd-takes Sized 3 110 (record { cmd_q = vacant }) 1500 (waking wrapped ∷ [])
      ((refl, ([], vacant-Represents)), (refl, ((first ∷ first ∷ []), wrapped-Represents)))

abbrev late : Timeval
late = record { tv_sec = 100; tv_usec = 999_999 }

-- Woken twice by nothing, and then by a command.
one_deadline_example :
    let ts = cond_cmd_q_getabstimeout (record { tv_sec = 100; tv_usec = 5 }) 1500 in
    let calls = calls_of (
      timed_wait_while cond_cmd_q_empty 1 1500
        (waking vacant ∷ waking vacant ∷ waking wrapped ∷ [])
        (record { tv_sec = 0; tv_nsec = 0 })
        vacant) in
    (calls ≡ repeated (length calls) (cond_timedwait 1 ts.tv_sec ts.tv_nsec))
    × (nanoseconds ts ≡ 100 * 1_000_000_000 + 5 * 1000 + 1500 * 1_000_000)
one_deadline_example =
    one_deadline cond_cmd_q_empty 1 1500 (waking vacant) (waking vacant ∷ waking wrapped ∷ [])
      vacant (omega arith) (omega arith)
