-- ===== src/Greenev/Program.antt =====
-- The whole program of greenev: the main thread of greenev/app.c with its event loop, the I/O thread
-- of greenev/iothread.c and the Python thread of greenev/pythread.c, in any interleaving. One step is
-- one call of a function by one of the threads.
pub mod Sound
pub mod Stepping
pub mod Keeping
pub mod Asking
pub mod MainThread
pub mod Runs
pub mod Finishing
pub mod Whole
use striga2_pocs.Base.{
  ℕ, ◌≡◌, ◌≢◌, Bool, true, false, Option, none, some, List, [], ◌∷◌, ◌++◌, ◌==◌, if◌then◌else◌,
}
use striga2_pocs.Calls.{Call, returns}
use striga2_pocs.Fifo.{admit}
use striga2_pocs.Greenev.Cmd.{Cmd}
use striga2_pocs.Greenev.CmdQEv.{take_cmd}
use striga2_pocs.Greenev.CmdQCv.Wait.{Wake, Throughout}
use striga2_pocs.Greenev.CmdQCv.{CondCmdQ, cond_cmd_q_empty}
use striga2_pocs.Greenev.IoThread.{SockObj, iot_cmd_io_thread_die}
use striga2_pocs.Greenev.IoThread.Life.{io_thread_cleanup}
use striga2_pocs.Greenev.IoThread.Life.Whole.{thread_exit as io_thread_exit}
use striga2_pocs.Greenev.PyApi.{NextCmd, py_geapi_py_thread_next_cmd, py_thread_cleanup}
use striga2_pocs.Greenev.PyApi.Thread.{thread_exit as py_thread_exit}
use striga2_pocs.Greenev.App.{
  Application, PyThread, on_terminating_signal, on_application_cmd, app_run_phase_run,
}
use striga2_pocs.Greenev.System.{
  System, die_cmd, refused, rest, Step, listens, connects, dies, takes, accepts, reads,
}

-- How far the I/O thread is: its loop runs, it has carried out the command DIE, or it has ended.
pub data IoStage : Type 0 where
  serving : IoStage
  stopping : IoStage
  gone : IoStage

-- The application with its two threads; for the record, the commands that wait in the queue of the
-- I/O thread, those that found it full, and those that wait in the queue of the application.
pub record Program : Type 0 where
  pub app : Application
  pub waiting : List Cmd
  pub lost : List Cmd
  pub told : List Cmd
  pub io_stage : IoStage
  pub py_alive : Bool

abbrev pub system_of : Program → System
system_of p = record { thread = p.app.io_thread; waiting = p.waiting; lost = p.lost }

-- The application as `application_ctor` has left it, in its event loop.
abbrev pub started : Application → Program
started app = record {
  app = record app { run_phase = app_run_phase_run };
  waiting = [];
  lost = [];
  told = [];
  io_stage = serving;
  py_alive = true;
}

-- After a terminating signal, which has left the application `app` and put DIE.
abbrev pub signalled : Program → Application → Program
signalled p app = record p {
  app = app;
  waiting = admit 255 p.waiting (die_cmd ∷ []);
  lost = refused 255 p.waiting (die_cmd ∷ []) ++ p.lost;
}

module _ (memory : ℕ → SockObj) (intact : ℕ → Bool) where
  -- A handler of the I/O thread runs until the thread has ended; any thread may listen and connect;
  -- the command DIE is only put by the main thread, below.
  abbrev pub Allowed :
      IoStage → {s s' : System} {calls : List Call} → Step memory intact 256 s calls s' → Type 0
  Allowed stage (listens s resolved placed) = Unit
  Allowed stage (connects s resolved placed) = Unit
  Allowed stage (dies s) = ⊥
  Allowed stage (takes s cmd thread' calls taken done_) = stage ≢ gone
  Allowed stage (accepts s l is_error is_read client has_app address) = stage ≢ gone
  Allowed stage (reads s sockobj is_read count thread' calls listed done_) = stage ≢ gone

  abbrev pub stage_after :
      IoStage → {s s' : System} {calls : List Call} → Step memory intact 256 s calls s' → IoStage
  stage_after stage (takes s cmd thread' calls taken done_) =
      if cmd.id == iot_cmd_io_thread_die then stopping else stage
  stage_after stage step = stage

  -- The calls are those of the main thread.
  pub data Turn : Program → List Call → Program → Type 0 where
    works :
        (p : Program) (s' : System) (calls : List Call)
        (step : Step memory intact 256 (system_of p) calls s')
        → Allowed p.io_stage step
        → Turn p [] (record p {
          app = record (p.app) { io_thread = s'.thread };
          waiting = s'.waiting;
          lost = s'.lost;
          io_stage = stage_after p.io_stage step;
        })
    -- `ev_run` returns false: DIE has let go of the loop's own reference, and no watcher of a socket
    -- is active.
    io_ends :
        (p : Program) (arg : ℕ) (app' : Application) (calls : List Call)
        → p.io_stage ≡ stopping
        → p.app.io_thread.listening ≡ []
        → p.app.io_thread.established ≡ []
        → io_thread_cleanup p.app.io_thread (some p.app) arg ≡ (some app', calls)
        → Turn p [] (record p {
          app = app';
          told = admit 255 p.told (io_thread_exit arg ∷ []);
          io_stage = gone;
        })
    -- The Python thread asks for its next command, and nobody puts one while it waits.
    asks :
        (p : Program) (etimedout timeout_ms : ℕ) (wakes : List (Wake CondCmdQ)) (this' : PyThread)
        (next : NextCmd) (calls : List Call)
        → p.py_alive ≡ true
        → Throughout cond_cmd_q_empty 1 (λ q. q ≡ p.app.py_thread.cmd_q) wakes p.app.py_thread.cmd_q
        → py_geapi_py_thread_next_cmd true true
            (some p.app.py_thread)
            etimedout
            timeout_ms
            0
            wakes
            0
          ≡ returns (some (some this', next, calls))
        → Turn p [] (record p { app = record (p.app) { py_thread = this' } })
    py_ends :
        (p : Program) (arg : ℕ) (app' : Application) (calls : List Call)
        → p.py_alive ≡ true
        → py_thread_cleanup (some p.app) arg ≡ (some app', calls)
        → Turn p [] (record p {
          app = app';
          told = admit 255 p.told (py_thread_exit arg ∷ []);
          py_alive = false;
        })
    signals :
        (p : Program) (signum : ℕ) (wakes : List (Wake CondCmdQ)) (app' : Application)
        (calls : List Call)
        → p.app.run_phase ≡ app_run_phase_run
        → on_terminating_signal p.app signum wakes ≡ returns (some (app', calls))
        → Turn p calls (signalled p app')
    main_takes :
        (p : Program) (cmd : Cmd) (calls : List Call)
        → (take_cmd p.app.app_cmd_q).1 ≡ some cmd
        → on_application_cmd (record (p.app) { app_cmd_q = (take_cmd p.app.app_cmd_q).0 }) cmd
          ≡ returns calls
        → Turn p calls (record p {
          app = record (p.app) { app_cmd_q = (take_cmd p.app.app_cmd_q).0 };
          told = rest p.told;
        })

  -- Any number of turns.
  pub data Turns : Program → List Call → Program → Type 0 where
    stays : (p : Program) → Turns p [] p
    goes :
        {p p' p'' : Program} {calls more : List Call}
        → Turn p calls p'
        → Turns p' more p''
        → Turns p (calls ++ more) p''
