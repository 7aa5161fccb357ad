-- ===== src/Singlev/Api.antt =====
-- What singlev/src/pysevapi.c offers to Python, and `application_start` of singlev/src/app.c, which
-- runs a Python module that uses it.
pub mod Steps
pub mod Life
use striga2_pocs.Base.{
  ℕ, Bool, true, false, ◌&&◌, Option, none, some, List, [], ◌∷◌, ◌++◌, ◌==◌, if◌then◌else◌,
}
use striga2_pocs.Calls.{
  Call, Outcome, returns, aborts, gil_save, gil_restore, py_api, py_new, py_decref, log,
}
use striga2_pocs.Singlev.RunModule.{Answers, gives, pyutils_run_module}
use striga2_pocs.Singlev.App.{
  Application, LoopEvent, Ran, ran, asserted, still_running, application_run, application_die,
  application_command, app_run_phase_run, app_cmd_id_listen,
}

-- `_pysevapi_app_ready`; the argument is the pointer `app`.
unfoldable pub app_ready : Option Application → Bool × List Call
app_ready none = (false, py_api ∷ [])
app_ready (some this) =
    if this.run_phase == app_run_phase_run then (true, []) else (false, py_api ∷ [])

-- `_pysevapi_application_run`; `parsed` says whether the arguments parse. The result is false for an
-- exception. (The state of the thread is stored as soon as the lock is given up.)
unfoldable pub api_application_run :
    (parsed : Bool) → List (List LoopEvent × Bool) → Application → Ran (Application × Bool)
unfolding app_ready
api_application_run false rounds this = ran (this, false) (py_api ∷ [])
api_application_run true rounds this =
    let (ok, asked) = app_ready (some this) in
    if ok
    then (if this.python_thread_state
        then ran (this, false) (py_api ∷ (asked ++ py_api ∷ []))
        else (elim (application_run (record this { python_thread_state = true }) rounds) [
          | asserted ↦ asserted
          | still_running ↦ still_running
          | ran this' calls ↦
              ran (record this' { python_thread_state = false }, true)
                (py_api ∷ (asked ++ gil_save ∷ (calls ++ gil_restore ∷ [])))
        ]))
    else ran (this, false) (py_api ∷ asked)

-- `_pysevapi_application_listen`; the addresses that it is given are not passed on.
unfoldable pub api_application_listen :
    (parsed : Bool) → Application → Application × Bool × List Call
unfolding app_ready
api_application_listen false this = (this, false, py_api ∷ [])
api_application_listen true this =
    let (ok, asked) = app_ready (some this) in
    let (this', result, calls) = application_command this app_cmd_id_listen 0 in
    if ok
    then (
      this',
      result,
      py_api ∷ (asked ++ gil_save ∷ (calls ++ gil_restore ∷ (if result then [] else py_api ∷ []))),
    )
    else (this, false, py_api ∷ asked)

-- `pysevapi_init`: the new module that CPython gives, and whether the constant is added to it.
unfoldable pub pysevapi_init : Option ℕ → (version_added : Bool) → Option ℕ × List Call
pysevapi_init none version_added = (none, py_api ∷ [])
pysevapi_init (some m) false = (none, py_new m ∷ py_api ∷ log ∷ py_decref m ∷ [])
pysevapi_init (some m) true = (some m, py_new m ∷ py_api ∷ [])

-- A use of the first two by the Python module.
pub data PyCall : Type 0 where
  run : (parsed : Bool) → List (List LoopEvent × Bool) → PyCall
  listen : (parsed : Bool) → PyCall

unfoldable pub py_calls : Application → List PyCall → Ran Application
unfolding api_application_run api_application_listen
py_calls this [] = ran this []
py_calls this (run parsed rounds ∷ more) = elim (api_application_run parsed rounds this) [
  | asserted ↦ asserted
  | still_running ↦ still_running
  | ran (this', _) calls ↦ elim (py_calls this' more) [
    | asserted ↦ asserted
    | still_running ↦ still_running
    | ran this'' later ↦ ran this'' (calls ++ later)
  ]
]
py_calls this (listen parsed ∷ more) =
    let (this', _, calls) = api_application_listen parsed this in
    elim (py_calls this' more) [
      | asserted ↦ asserted
      | still_running ↦ still_running
      | ran this'' later ↦ ran this'' (calls ++ later)
    ]

-- Whether the module is run at all.
abbrev pub called : Answers → Bool
called a = gives a.runpy && gives a.runmodule && gives a.name && gives a.runargs

-- `application_start`; `module` is what the Python module does.
unfoldable pub application_start : Application → Answers → List PyCall → Ran (Application × ℕ)
unfolding py_calls
application_start this answers module_ =
    elim (py_calls (record this { run_phase = app_run_phase_run })
      (if called answers then module_ else [])) [
        | asserted ↦ asserted
        | still_running ↦ still_running
        | ran this' calls ↦ elim (application_die this') [
          | aborts ↦ asserted
          | returns (this'', died) ↦
              ran (this'', this''.exit_status)
                (log ∷ ((pyutils_run_module answers calls).1 ++ died))
        ]
      ]
