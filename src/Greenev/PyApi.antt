-- ===== src/Greenev/PyApi.antt =====
-- What greenev/pygeapi.c offers to Python, and the thread of greenev/pythread.c that runs a Python
-- module which uses it.
pub mod Next
pub mod Thread
use striga2_pocs.Base.{
  ℕ, zero, suc, Bool, true, false, Option, none, some, List, [], ◌∷◌, ◌++◌, ℤ, pos, negsuc,
}
use striga2_pocs.Calls.{
  Call, Outcome, returns, aborts, gil_restore, gil_save, py_api, py_new, py_decref,
}
use striga2_pocs.Greenev.Cmd.{Cmd}
use striga2_pocs.Greenev.IoThread.{IoThread, SockObj}
use striga2_pocs.Greenev.IoThread.Connecting.{Address, io_thread_listen}
use striga2_pocs.Greenev.CmdQCv.{CondCmdQ, cond_cmd_q_timed_get}
use striga2_pocs.Greenev.CmdQCv.Wait.{Wake}
use striga2_pocs.Greenev.App.{Application, PyThread, application_command, app_cmd_py_thread_exit}
use striga2_pocs.Singlev.RunModule.{Answers, pyutils_run_module}

-- `py_geapi_io_thread_listen`; `parsed` says whether the arguments parse, and `resolved` is what
-- `getaddrinfo` answers. The result is the application, whether the call succeeds, and the new
-- objects.
unfoldable pub py_geapi_io_thread_listen :
    (parsed : Bool)
    → Option (List Address)
    → Option Application
    → Option Application × Bool × List SockObj × List Call
py_geapi_io_thread_listen false resolved app = (app, false, [], py_api ∷ [])
py_geapi_io_thread_listen true resolved none = (none, true, [], py_api ∷ [])
py_geapi_io_thread_listen true resolved (some app) =
    let (cmd_q, objects, calls) = io_thread_listen app.io_thread.cmd_q resolved in
    (
      some (record app { io_thread = record (app.io_thread) { cmd_q = cmd_q } }),
      true,
      objects,
      py_api ∷ calls,
    )

-- What `py_geapi_py_thread_next_cmd` gives to Python: an exception, `None`, or the id of a command.
pub data NextCmd : Type 0 where
  exception : NextCmd
  timed_out : NextCmd
  command : ℕ → NextCmd

-- The id of a command; it is only read where one was stored.
abbrev pub id_of : Option Cmd → ℕ
id_of none = 0
id_of (some cmd) = cmd.id

abbrev pub answer : ℤ → Option Cmd → NextCmd
answer (pos zero) cmd = timed_out
answer (pos (suc zero)) cmd = command (id_of cmd)
answer (pos (suc (suc n))) cmd = exception
answer (negsuc n) cmd = exception

-- `py_geapi_py_thread_next_cmd`: `exact` says whether the first argument is a capsule, and
-- `py_thread` is what it points to. The last four arguments are those of the timed get, and
-- `returns none` is a thread that still waits.
unfoldable pub py_geapi_py_thread_next_cmd :
    (parsed exact : Bool)
    → (py_thread : Option PyThread) → (etimedout timeout_ms lock_err : ℕ) → List (Wake CondCmdQ)
    → (unlock_err : ℕ) → Outcome (Option (Option PyThread × NextCmd × List Call))
py_geapi_py_thread_next_cmd false exact py_thread etimedout timeout_ms lock_err wakes unlock_err =
    returns (some (py_thread, exception, py_api ∷ []))
py_geapi_py_thread_next_cmd true false py_thread etimedout timeout_ms lock_err wakes unlock_err =
    returns (some (py_thread, exception, py_api ∷ py_api ∷ []))
py_geapi_py_thread_next_cmd true true none etimedout timeout_ms lock_err wakes unlock_err =
    returns (some (none, exception, py_api ∷ py_api ∷ py_api ∷ []))
py_geapi_py_thread_next_cmd true true (some this) etimedout timeout_ms lock_err wakes unlock_err =
    elim (cond_cmd_q_timed_get etimedout this.cmd_q timeout_ms lock_err wakes unlock_err) [
      | aborts ↦ aborts
      | returns none ↦ returns none
      | returns (some (cmd_q, res, cmd, calls)) ↦ returns (
          some (
            some (record { cmd_q = cmd_q }),
            answer res cmd,
            py_api ∷ py_api ∷ py_api ∷ gil_save ∷ (calls ++ gil_restore ∷ py_api ∷ []),
          ))
    ]

-- `_py_run_module`, the same text as `_pyutils_run_module` of singlev/src/pyutils.c.
unfoldable pub py_run_module : Answers → List Call → Bool × List Call
py_run_module = pyutils_run_module

-- `_py_thread_cleanup`; the argument is the pointer `app`, and `arg` the address of the thread.
unfoldable pub py_thread_cleanup : Option Application → (arg : ℕ) → Option Application × List Call
py_thread_cleanup none arg = (none, [])
py_thread_cleanup (some app) arg =
    let (app', _, calls) = application_command app app_cmd_py_thread_exit arg in (some app', calls)

-- `_py_thread_start`, from the call of `Py_InitializeEx` on, which leaves the interpreter lock with
-- this thread. `this_pyobj` is the new capsule; to drop a reference to `NULL` ends the process.
-- `calls` are those of the Python module.
unfoldable pub py_thread_start :
    Option Application
    → (arg : ℕ) → (this_pyobj : Option ℕ) → Answers
    → (calls : List Call) → Outcome (Option Application × List Call)
unfolding py_run_module py_thread_cleanup
py_thread_start app arg none answers calls = aborts
py_thread_start app arg (some this_pyobj) answers calls =
    let (app', exiting) = py_thread_cleanup app arg in
    returns (
      app',
      gil_restore
          ∷ py_api
          ∷ py_new this_pyobj
          ∷ py_api
          ∷ py_decref this_pyobj
          ∷ py_api
          ∷ ((py_run_module answers calls).1 ++ exiting),
    )
