-- ===== src/Greenev/PyApi/Thread.antt =====
-- The thread of greenev/pythread.c, from its start to its end.
use striga2_pocs.Base.{
  ℕ, ◌-◌, ◌≡◌, refl, ◌∙◌, true, false, some, List, [], ◌∷◌, ◌++◌, length, arith, ltb, if◌then◌else◌,
}
use striga2_pocs.Calls.{
  Call, returns, count, count-append, is_new, is_decref, gil_after, gil_after-append,
}
use striga2_pocs.Greenev.Cmd.{Cmd}
use striga2_pocs.Greenev.CmdQEv.{watcher_cmd_q_put}
use striga2_pocs.Greenev.CmdQEv.Laws.{put-interpreter}
use striga2_pocs.Greenev.CmdQEv.Drain.{Keeps, put-Keeps}
use striga2_pocs.Greenev.App.{Application, application_command, app_cmd_py_thread_exit}
use striga2_pocs.Greenev.PyApi.{py_run_module, py_thread_cleanup, py_thread_start}
use striga2_pocs.Singlev.RunModule.{Answers, pyutils_run_module, run_module-drops_all}

-- The command that tells the application of the end of the thread at an address.
abbrev pub thread_exit : ℕ → Cmd
thread_exit arg = record { id = app_cmd_py_thread_exit; arg = arg }

-- However the run of the Python module goes, be it that it cannot even be called: the thread comes
-- to its end, and leaves a PY_THREAD_EXIT command behind those that wait in the queue of the
-- application, if there is room for one. Every reference taken is dropped again; but the interpreter
-- lock, which the thread did not have at first, is still held when it has ended. (The module itself
-- drops what it takes and leaves the lock held, and the capsule is made.)
pub py_thread_start-ends :
    (app : Application) (size callbackarg arg this_pyobj o : ℕ) (xs : List Cmd) (answers : Answers)
    (calls : List Call)
    → Keeps app.app_cmd_q size callbackarg xs
    → count (is_new o) calls ≡ count (is_decref o) calls
    → gil_after true calls ≡ some true
    → (app' : Application) × (all : List Call) × (py_thread_start
          (some app)
          arg
          (some this_pyobj)
          answers
          calls
        ≡ returns (some app', all))
      × Keeps app'.app_cmd_q size callbackarg
          (if ltb (length xs) (size - 1) then xs ++ thread_exit arg ∷ [] else xs)
      × (count (is_new o) all ≡ count (is_decref o) all)
      × (gil_after false all ≡ some true)
unfolding py_thread_start py_run_module py_thread_cleanup application_command count is_new is_decref
    gil_after
py_thread_start-ends app size callbackarg arg this_pyobj o xs answers calls k balanced locked =
    let (dropped, held, _) = run_module-drops_all answers calls o balanced locked in
    let (quiet, none_new, none_dropped) =
      put-interpreter app.app_cmd_q app_cmd_py_thread_exit arg true o in
    let run = (pyutils_run_module answers calls).1 in
    let exiting = (watcher_cmd_q_put app.app_cmd_q app_cmd_py_thread_exit arg).2 in
    (
      _,
      _,
      refl,
      put-Keeps app.app_cmd_q size callbackarg xs (thread_exit arg) k,
      omega (
        arith,
        count-append (is_new o) run exiting,
        count-append (is_decref o) run exiting,
        dropped,
        none_new,
        none_dropped,
      ),
      gil_after-append true true run exiting held ∙ quiet,
    )
