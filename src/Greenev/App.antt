-- ===== src/Greenev/App.antt =====
-- The application of greenev/app.c: it owns the main event loop, starts the I/O thread and the
-- Python thread of greenev/pythread.c, and ends when both have ended.
pub mod Starting
pub mod Shutdown
use striga2_pocs.Base.{
  ℕ, ◌+◌, Bool, true, false, Option, none, some, List, [], ◌∷◌, ◌++◌, ◌==◌, if◌then◌else◌,
}
use striga2_pocs.Calls.{
  Call, Outcome, returns, aborts, signal_init, signal_start, signal_stop, loop_ref, loop_unref,
  loop_new, thread_create, thread_join, py_api, log,
}
use striga2_pocs.Greenev.Cmd.{Cmd}
use striga2_pocs.Greenev.CmdQEv.{
  WatcherCmdQ, watcher_cmd_q_new, watcher_cmd_q_start, watcher_cmd_q_delete, watcher_cmd_q_put,
}
use striga2_pocs.Greenev.CmdQCv.{CondCmdQ, cond_cmd_q_new, cond_cmd_q_put, cond_cmd_q_delete}
use striga2_pocs.Greenev.CmdQCv.Wait.{Wake}
use striga2_pocs.Greenev.IoBuffer.{io_buffer_new}
use striga2_pocs.Greenev.IoThread.{IoThread, io_thread_die, io_thread_dtor}

-- `enum app_run_phases` and `enum app_cmd_id` of greenev/app.h
abbrev pub app_run_phase_init : ℕ
app_run_phase_init = 0

abbrev pub app_run_phase_run : ℕ
app_run_phase_run = 100

abbrev pub app_run_phase_dying : ℕ
app_run_phase_dying = 990

abbrev pub app_run_phase_exit : ℕ
app_run_phase_exit = 1000

abbrev pub app_cmd_io_thread_exit : ℕ
app_cmd_io_thread_exit = 1

abbrev pub app_cmd_py_thread_exit : ℕ
app_cmd_py_thread_exit = 2

-- `pyt_cmd_IO_THREAD_DIE` of greenev/pythread.h
abbrev pub pyt_cmd_io_thread_die : ℕ
pyt_cmd_io_thread_die = 1

-- `struct py_thread`, less the thread.
pub record PyThread : Type 0 where
  pub cmd_q : CondCmdQ

-- `struct application`, less the two signal watchers.
pub record Application : Type 0 where
  pub run_phase : ℕ
  pub exit_status : ℕ
  pub app_cmd_q : WatcherCmdQ
  pub io_thread : IoThread
  pub py_thread : PyThread

-- What a new thread meets: the answers of the calls that block the signals, create the thread and
-- restore the signals, 0 for success. (Of these calls the trace has the creation.)
pub record Creation : Type 0 where
  pub block_err : ℕ
  pub create_err : ℕ
  pub restore_err : ℕ

abbrev pub created : Creation → Bool
created c =
    if c.block_err == 0 then (if c.create_err == 0 then c.restore_err == 0 else false) else false

-- `has_loop` says whether `ev_loop_new` gives a loop, `memory` is what the queue gets, `start` where
-- the slots of the buffer lie, `this` the address of the thread's structure. A failure ends the
-- process, and a queue that is `NULL` does so too, when the thread starts it.
unfoldable pub io_thread_ctor :
    (has_loop : Bool)
    → Option (List Cmd)
    → (start this : ℕ) → Creation
    → Outcome (IoThread × List Call)
io_thread_ctor false memory start this creation = aborts
io_thread_ctor true memory start this creation = elim (watcher_cmd_q_new 256 this memory) [
  | aborts ↦ aborts
  | returns (none, calls) ↦ aborts
  | returns (some cmd_q, calls) ↦
      let (buf, more) = io_buffer_new start in
      if created creation
      then returns (
        record { listening = []; established = []; cmd_q = cmd_q; tmp_io_buf = buf },
        loop_new ∷ (calls ++ (more ++ thread_create ∷ [])),
      )
      else aborts
]

-- `initialized` is what `Py_IsInitialized` says. The queue is used without a test for `NULL`.
unfoldable pub py_thread_ctor :
    (initialized : Bool) → Option (List Cmd) → Creation → Outcome (PyThread × List Call)
py_thread_ctor true memory creation = aborts
py_thread_ctor false memory creation = elim (cond_cmd_q_new 256 memory 0 0 0) [
  | aborts ↦ aborts
  | returns (none, calls) ↦ aborts
  | returns (some cmd_q, calls) ↦
      if created creation
      then returns (record { cmd_q = cmd_q }, py_api ∷ (calls ++ thread_create ∷ []))
      else aborts
]

unfoldable pub py_thread_dtor : PyThread → List Call
py_thread_dtor this = thread_join ∷ py_api ∷ cond_cmd_q_delete this.cmd_q 0 0 0

-- The put waits while the queue is full; `none` is a thread that still waits.
unfoldable pub py_thread_die :
    PyThread → List (Wake CondCmdQ) → Outcome (Option (PyThread × List Call))
py_thread_die this wakes = elim (cond_cmd_q_put this.cmd_q pyt_cmd_io_thread_die 0 0 wakes 0) [
  | aborts ↦ aborts
  | returns none ↦ returns none
  | returns (some (cmd_q, done, calls)) ↦ returns (some (record { cmd_q = cmd_q }, calls))
]

-- The signals that end the application.
abbrev sigint : ℕ
sigint = 2

abbrev sigterm : ℕ
sigterm = 15

-- `has_app` says whether there is an application already, `has_loop` whether libev gives its default
-- loop. `memory` goes to the application's queue, and the two threads have their own answers.
unfoldable pub application_ctor :
    (has_app has_loop : Bool)
    → Option (List Cmd)
    → (this : ℕ) → Outcome (IoThread × List Call)
    → Outcome (PyThread × List Call)
    → Outcome (Application × List Call)
application_ctor true has_loop memory this io py = aborts
application_ctor false false memory this io py = aborts
application_ctor false true memory this io py = elim (watcher_cmd_q_new 256 this memory) [
  | aborts ↦ aborts
  | returns (none, calls) ↦ aborts
  | returns (some app_cmd_q, calls) ↦ elim io [
    | aborts ↦ aborts
    | returns (io_thread, io_calls) ↦ elim py [
      | aborts ↦ aborts
      | returns (py_thread, py_calls) ↦ returns (
        record {
          run_phase = app_run_phase_init;
          exit_status = 0;
          app_cmd_q = app_cmd_q;
          io_thread = io_thread;
          py_thread = py_thread;
        },
        signal_init sigint
            ∷ signal_start sigint
            ∷ signal_init sigterm
            ∷ signal_start sigterm
            ∷ (calls
                ++ (watcher_cmd_q_start app_cmd_q ++ loop_ref ∷ (io_calls ++ loop_ref ∷ py_calls))),
      )
    ]
  ]
]

unfoldable pub application_dtor : Application → Application × List Call
application_dtor this = (
  record this { run_phase = app_run_phase_exit },
  py_thread_dtor this.py_thread
      ++ (io_thread_dtor this.io_thread
          ++ (watcher_cmd_q_delete this.app_cmd_q
              ++ signal_stop sigint ∷ signal_stop sigterm ∷ [])),
)

-- `_application_die`; `wakes` are those of the put to the Python thread.
unfoldable pub application_die :
    Application → List (Wake CondCmdQ) → Outcome (Option (Application × List Call))
application_die this wakes =
    let (cmd_q, calls) = io_thread_die this.io_thread.cmd_q in
    elim (py_thread_die this.py_thread wakes) [
      | aborts ↦ aborts
      | returns none ↦ returns none
      | returns (some (py_thread, more)) ↦ returns (
          some (
            record this {
              run_phase = app_run_phase_dying;
              io_thread = record (this.io_thread) { cmd_q = cmd_q };
              py_thread = py_thread;
            },
            signal_stop sigint ∷ signal_stop sigterm ∷ (calls ++ more),
          ))
    ]

-- `_on_terminating_signal`; the line break that it prints is left out.
unfoldable pub on_terminating_signal :
    Application → (signum : ℕ) → List (Wake CondCmdQ) → Outcome (Option (Application × List Call))
unfolding application_die
on_terminating_signal this signum wakes = application_die this wakes

-- One call of `ev_run`: what the handlers that it calls, and the other threads meanwhile, make of the
-- application, the calls of the main thread, and what it returns.
pub record Round : Type 0 where
  pub left : Application
  pub calls : List Call
  pub keep_running : Bool

-- The loop of `application_run`, up to the first false; `none` is a loop that still runs.
unfoldable pub run_rounds : Application → List Round → Option (Application × List Call)
run_rounds this [] = none
run_rounds this (round ∷ more) =
    let behind = run_rounds round.left more in
    if round.keep_running
    then (elim behind [ none ↦ none | some (this', calls) ↦ some (this', round.calls ++ calls) ])
    else some (round.left, round.calls)

unfoldable pub application_run : Application → List Round → Option (Application × ℕ × List Call)
unfolding run_rounds
application_run this rounds =
    elim (run_rounds (record this { run_phase = app_run_phase_run }) rounds) [
      | none ↦ none
      | some (this', calls) ↦ some (this', this'.exit_status, log ∷ calls)
    ]

-- `application_command`, callable from other threads.
unfoldable pub application_command : Application → ℕ → ℕ → Application × Bool × List Call
application_command this app_cmd_id arg =
    let (app_cmd_q, done, calls) = watcher_cmd_q_put this.app_cmd_q app_cmd_id arg in
    (record this { app_cmd_q = app_cmd_q }, done, calls)

-- `_on_application_cmd`, which changes nothing in the application.
unfoldable pub on_application_cmd : Application → Cmd → Outcome (List Call)
on_application_cmd this cmd =
    if cmd.id == app_cmd_io_thread_exit
    then (if this.run_phase == app_run_phase_dying then returns (loop_unref ∷ []) else aborts)
    else (if cmd.id == app_cmd_py_thread_exit
        then returns
            ((if this.run_phase == app_run_phase_dying then [] else log ∷ []) ++ loop_unref ∷ [])
        else returns (log ∷ []))
