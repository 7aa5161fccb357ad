-- ===== src/Greenev/CmdQEv.antt =====
-- The watcher-based command queue of greenev/cmdq_ev.c: a circular array behind a mutex, whose
-- `ev_async` callback hands every queued command to a callback of the owner.
pub mod Laws
pub mod Drain
use striga2_pocs.Base.{
  ℕ, zero, suc, ◌+◌, Bool, true, false, Option, none, some, List, [], ◌∷◌, ◌++◌, get_elem?, set,
  ◌==◌, if◌then◌else◌, u32,
}
use striga2_pocs.Calls.{
  Call, mutex_init, mutex_destroy, mutex_lock, mutex_unlock, async_init, async_start, async_stop,
  async_send, loop_unref, free, log, Outcome, returns, aborts,
}
use striga2_pocs.Fifo.{now_or_nil, later_or_nil}
use striga2_pocs.Greenev.Cmd.{Cmd}

-- `struct watcher_cmd_q`, less the mutex, the watcher and the loop, which are known by the calls on
-- them, and the callback, which `on_watcher_cmd_q_async` takes.
pub record WatcherCmdQ : Type 0 where
  pub q_size : ℕ
  pub q_head : ℕ
  pub q_tail : ℕ
  pub callbackarg : ℕ
  pub q : List Cmd

-- `memory` is what `malloc` returned: `NULL`, or the cells, with whatever they hold.
unfoldable pub watcher_cmd_q_new :
    ℕ → ℕ → Option (List Cmd) → Outcome (Option WatcherCmdQ × List Call)
watcher_cmd_q_new size callbackarg memory = if size == 0 then aborts else elim memory [
  | none ↦ returns (none, [])
  | some cells ↦ returns (
    some (record { q_size = size; q_head = 0; q_tail = 0; callbackarg = callbackarg; q = cells }),
    mutex_init ∷ async_init ∷ [],
  )
]

unfoldable pub watcher_cmd_q_start : WatcherCmdQ → List Call
watcher_cmd_q_start this = async_start ∷ loop_unref ∷ []

unfoldable pub watcher_cmd_q_stop : WatcherCmdQ → List Call
watcher_cmd_q_stop this = async_stop ∷ []

pub watcher_cmd_q_delete : WatcherCmdQ → List Call
unfolding watcher_cmd_q_stop
watcher_cmd_q_delete this =
    watcher_cmd_q_stop this
    ++ mutex_destroy ∷ ((if this.q_head == this.q_tail then [] else log ∷ []) ++ free ∷ [])

abbrev pub step_index : ℕ → ℕ → ℕ
step_index size i = if u32 (i + 1) == size then 0 else u32 (i + 1)

unfoldable pub watcher_cmd_q_put : WatcherCmdQ → ℕ → ℕ → WatcherCmdQ × Bool × List Call
watcher_cmd_q_put this cmd_id arg =
    if head' == this.q_tail then (this, false, mutex_lock ∷ mutex_unlock ∷ []) else (
      record this { q_head = head'; q = set this.q this.q_head new_cmd },
      true,
      mutex_lock ∷ mutex_unlock ∷ async_send ∷ [],
    )
  where
    head' : ℕ
    head' = step_index this.q_size this.q_head

    new_cmd : Cmd
    new_cmd = record { id = cmd_id; arg = arg }

-- The critical section of the loop in `_on_watcher_cmd_q_async`: the command taken out, `none`
-- where the queue is empty. (The read lies in the array, by `take_oldest`.)
unfoldable pub take_cmd : WatcherCmdQ → WatcherCmdQ × Option Cmd
take_cmd this =
    if this.q_head == this.q_tail
    then (this, none)
    else (record this { q_tail = step_index this.q_size this.q_tail }, get_elem? this.q this.q_tail)

-- The puts that the callback and other threads make between two turns of the loop.
unfoldable pub put_all : WatcherCmdQ → List Cmd → WatcherCmdQ
unfolding watcher_cmd_q_put
put_all this [] = this
put_all this (c ∷ cs) = put_all (watcher_cmd_q_put this c.id c.arg).0 cs

-- `for (;;)`, on fuel: `none` means that it ran out. `cmdcallback` acts on a state of the owner's,
-- and `arrivals` are the puts before each turn.
pub on_watcher_cmd_q_async {ℓ} :
    {S : Type ℓ} (cmdcallback : ℕ → Cmd → S → S)
    → ℕ
    → List (List Cmd)
    → WatcherCmdQ
    → S
    → Option (WatcherCmdQ × S)
unfolding take_cmd put_all
on_watcher_cmd_q_async cmdcallback zero arrivals this s = none
on_watcher_cmd_q_async cmdcallback (suc fuel) arrivals this s =
    let (this', taken) = take_cmd (put_all this (now_or_nil arrivals)) in
    elim taken [
      | none ↦ some (this', s)
      | some cmd ↦
          on_watcher_cmd_q_async cmdcallback fuel (later_or_nil arrivals) this'
            (cmdcallback this'.callbackarg cmd s)
    ]
