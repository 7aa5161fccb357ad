-- ===== src/Greenev/App/Starting.antt =====
-- What the constructors of greenev/app.c, greenev/iothread.c and greenev/pythread.c leave: the queue
-- of the Python thread, and what keeps the main event loop running.
use striga2_pocs.Base.{ℕ, ◌+◌, ◌≡◌, refl, true, false, some, List, [], ◌∷◌, ◌++◌, length, arith}
use striga2_pocs.Calls.{
  Call, returns, count, count-append, is_keeping, is_letting_go, loop_unref, log, loop_new,
  loop_ref, signal_init, signal_start, async_start, mutex_init, async_init, thread_create, py_api,
  cond_init,
}
use striga2_pocs.Greenev.Cmd.{Cmd}
use striga2_pocs.Greenev.CmdQEv.{WatcherCmdQ, watcher_cmd_q_start}
use striga2_pocs.Greenev.CmdQEv.Drain.{Keeps}
use striga2_pocs.Greenev.IoThread.{IoThread}
use striga2_pocs.Greenev.CmdQEv.Laws.{new-Represents as watcher_cmd_q_new-Represents}
use striga2_pocs.Greenev.CmdQCv.Indices.{Represents, new-Represents as cond_cmd_q_new-Represents}
use striga2_pocs.Greenev.IoBuffer.{io_buffer_new}
use striga2_pocs.Greenev.App.{
  Creation, created, io_thread_ctor, py_thread_ctor, Application, PyThread, application_ctor,
}

-- A trace that neither keeps an event loop running nor lets one go.
record Neutral (calls : List Call) : Type 0 where
  pub keeping : count is_keeping calls ≡ 0
  pub letting_go : count is_letting_go calls ≡ 0

-- A queue of greenev/cmdq_ev.c with 256 cells and no command.
abbrev Empty : WatcherCmdQ → Type 0
Empty q = Keeps q 256 q.callbackarg []

io_thread_ctor-made :
    (memory : List Cmd) (start this : ℕ) (creation : Creation)
    → length memory ≡ 256
    → created creation ≡ true
    → (io_thread : IoThread) × (calls : List Call) × (io_thread_ctor true
          (some memory)
          start
          this
          creation
        ≡ returns (io_thread, calls))
      × Neutral calls
      × Empty io_thread.cmd_q
unfolding io_thread_ctor count is_keeping is_letting_go io_buffer_new
io_thread_ctor-made memory start this creation sized c =
    let (q, e, n, r) =
      watcher_cmd_q_new-Represents 256 this memory (omega arith) (omega arith) sized in
    (
      record { listening = []; established = []; cmd_q = q; tmp_io_buf = (io_buffer_new start).0 },
      loop_new ∷ mutex_init ∷ async_init ∷ log ∷ mutex_init ∷ thread_create ∷ [],
      rw (io_thread_ctor, e, c) refl,
      record { keeping = refl; letting_go = refl },
      record { represents = r; sized = n; owned = refl },
    )

py_thread_ctor-made :
    (memory : List Cmd) (creation : Creation)
    → length memory ≡ 256
    → created creation ≡ true
    → (py_thread : PyThread) × (calls : List Call) × (py_thread_ctor false (some memory) creation
        ≡ returns (py_thread, calls))
      × Neutral calls
      × Represents py_thread.cmd_q 256 []
unfolding py_thread_ctor count is_keeping is_letting_go
py_thread_ctor-made memory creation sized c =
    let (q, e, r) = cond_cmd_q_new-Represents 256 memory (omega arith) (omega arith) sized in
    (
      record { cmd_q = q },
      py_api ∷ mutex_init ∷ cond_init 0 ∷ cond_init 1 ∷ thread_create ∷ [],
      rw (py_thread_ctor, e, c) refl,
      record { keeping = refl; letting_go = refl },
      r,
    )

-- What the constructor makes: what keeps the main loop running is four more than what lets it go, the
-- two signal watchers and the two threads, and the three queues are empty.
pub record Made (app : Application) (calls : List Call) : Type 0 where
  pub balance : count is_keeping calls ≡ count is_letting_go calls + 4
  pub io_empty : Keeps app.io_thread.cmd_q 256 app.io_thread.cmd_q.callbackarg []
  pub app_empty : Keeps app.app_cmd_q 256 app.app_cmd_q.callbackarg []
  pub py_empty : Represents app.py_thread.cmd_q 256 []
  pub status : app.exit_status ≡ 0

-- The constructor, where every thread is created.
pub application_ctor-made :
    (memory io_memory py_memory : List Cmd) (this start : ℕ) (creation creation' : Creation)
    → length memory ≡ 256
    → length io_memory ≡ 256
    → length py_memory ≡ 256
    → created creation ≡ true
    → created creation' ≡ true
    → (app : Application) × (calls : List Call) × (application_ctor false true
          (some memory)
          this
          (io_thread_ctor true (some io_memory) start this creation)
          (py_thread_ctor false (some py_memory) creation')
        ≡ returns (app, calls))
      × Made app calls
unfolding application_ctor count is_keeping is_letting_go watcher_cmd_q_start
application_ctor-made memory io_memory py_memory this start creation creation' s s' s'' c c' =
    let (q, e, n, r') =
      watcher_cmd_q_new-Represents 256 this memory (omega arith) (omega arith) s in
    let (io, io_calls, io_e, io_n, io_r) = io_thread_ctor-made io_memory start this creation s' c in
    let (py, py_calls, py_e, py_n, r) = py_thread_ctor-made py_memory creation' s'' c' in
    (
      record { run_phase = 0; exit_status = 0; app_cmd_q = q; io_thread = io; py_thread = py },
      signal_init 2
          ∷ signal_start 2
          ∷ signal_init 15
          ∷ signal_start 15
          ∷ mutex_init
          ∷ async_init
          ∷ async_start
          ∷ loop_unref
          ∷ loop_ref
          ∷ (io_calls ++ loop_ref ∷ py_calls),
      rw (application_ctor, e, io_e, py_e) refl,
      record {
        balance = omega (
          arith,
          count-append is_keeping io_calls (loop_ref ∷ py_calls),
          count-append is_letting_go io_calls (loop_ref ∷ py_calls),
          io_n.keeping,
          io_n.letting_go,
          py_n.keeping,
          py_n.letting_go,
        );
        io_empty = io_r;
        app_empty = record { represents = r'; sized = n; owned = refl };
        py_empty = r;
        status = refl;
      },
    )
