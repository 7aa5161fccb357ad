-- ===== src/Singlev/Api/Life.antt =====
-- The whole life of the application of singlev/src/app.c, whatever the Python module does with what
-- singlev/src/pysevapi.c offers.
use striga2_pocs.Base.{
  ℕ, ◌+◌, ◌≡◌, refl, ◌∙◌, ap, inl, Bool, true, false, some, List, [], ◌∷◌, ◌++◌, length, arith,
  ◌==◌, if◌then◌else◌,
}
use striga2_pocs.Calls.{
  Call, returns, py_api, log, mutex_init, async_init, signal_init, signal_start, signal_stop,
  mutex_destroy, free, count, count-append, gil_after, gil_after-append, is_keeping, is_letting_go,
}
use striga2_pocs.Pyglev.CmdQ as Pyglev
use striga2_pocs.Singlev.CmdQ.{Cmd, CmdQ, cmd_q_start, cmd_q_delete, cmd_q_stop}
use striga2_pocs.Singlev.CmdQ.Laws.{Represents, new-holds_nothing}
use striga2_pocs.Singlev.RunModule.{Answers, pyutils_run_module}
use striga2_pocs.Singlev.App.{
  Application, ran, application_ctor, application_dtor, app_run_phase_init, app_run_phase_run,
  app_run_phase_dying, app_run_phase_exit,
}
use striga2_pocs.Singlev.App.Loop.{Live, Goes, application_die-Goes}
use striga2_pocs.Singlev.Api.{PyCall, py_calls, called, application_start}
use striga2_pocs.Singlev.Api.Steps.{left_out, dying_test, api-Goes, py_calls-Goes, AllFinishing}

-- What a run of the module adds to the calls of the module itself, which are only made when it is
-- called.
run_module-keeps :
    (a : Answers) (calls : List Call)
    → gil_after true calls ≡ some true
    → let all = (pyutils_run_module a calls).1 in
      (gil_after true all ≡ some true)
      × (count is_keeping all ≡ (if called a then count is_keeping calls else 0))
      × (count is_letting_go all ≡ (if called a then count is_letting_go calls else 0))
unfolding pyutils_run_module count is_keeping is_letting_go gil_after
run_module-keeps a calls g = grind (
  arith,
  gil_after-append true true calls,
  count-append is_keeping calls,
  count-append is_letting_go calls,
  g,
)

-- The module is only run if the interpreter gives what is needed to call it.
py_calls_if-Goes :
    (b : Bool) (this : Application) (module_ : List PyCall)
    → Live this
    → this.python_thread_state ≡ false
    → AllFinishing module_
    → (this' : Application) × (calls : List Call) × (py_calls this (if b then module_ else [])
        ≡ ran this' calls)
      × Goes true this this' calls
      × ((p : Call → Bool) → (if b then count p calls else 0) ≡ count p calls)
unfolding py_calls count gil_after
py_calls_if-Goes true this module_ l t f =
    let (this', calls, e, g) = py_calls-Goes this module_ l t f in (this', calls, e, g, λ p. refl)
py_calls_if-Goes false this module_ l t f =
    (this, [], refl, api-Goes this [] l refl refl refl, λ p. refl)

-- Starting an application whose queue holds something ends, whatever the module does.
application_start-ends :
    (this : Application) (xs : List Pyglev.Cmd) (answers : Answers) (module_ : List PyCall)
    → Represents this.cmd_q xs
    → this.python_thread_state ≡ false
    → AllFinishing module_
    → (this' : Application) × (calls : List Call) × (application_start this answers module_
        ≡ ran (this', this.exit_status) calls)
      × (gil_after true calls ≡ some true)
      × (count is_keeping calls ≡ 0)
      × (count is_letting_go calls ≡ 2)
      × (this'.run_phase ≡ app_run_phase_dying)
      × (this'.python_thread_state ≡ false)
unfolding application_start gil_after count is_keeping is_letting_go
application_start-ends this xs answers module_ r t f =
    let started : Application = record this { run_phase = app_run_phase_run } in
    let started-Live : Live started = record { phase = inl refl; held = xs; queue = r } in
    let (this', calls, ran_it, g, same) =
      py_calls_if-Goes (called answers) started module_ started-Live t f in
    let (this'', died, dead, g', e) = application_die-Goes true this' g.live in
    let (locked, kept, let_go) = run_module-keeps answers calls g.gil in
    let all = (pyutils_run_module answers calls).1 in
    (
      this'',
      log ∷ (all ++ died),
      rw (application_start, ran_it, dead)
          (ap (λ n. ran (this'', n) (log ∷ (all ++ died))) (g'.status ∙ g.status)),
      gil_after-append true true all died locked ∙ g'.gil,
      omega (arith, count-append is_keeping all died, kept, same is_keeping, g.keeping, g'.keeping),
      omega (
        arith,
        count-append is_letting_go all died,
        let_go,
        same is_letting_go,
        g.letting_go,
        g'.letting_go,
        left_out {A = ℕ} 2 0 (dying_test this''.run_phase e),
      ),
      e,
      g'.thread ∙ g.thread ∙ t,
    )

-- From the constructor over the start to the destructor: with a queue of 128 cells from `malloc`, and
-- whatever the Python module does with the two calls, as long as in each use of the event loop one
-- call of `ev_run` returns false, the application is made, started and deleted, without a failed assert,
-- and each handler of the loop comes to its end. The process's exit status is 0; the interpreter lock
-- is held by the main thread after each step; the start leaves the phase DYING and no thread in the
-- event loop, and nothing keeps that loop running any more: over the constructor and the start, as
-- much lets it go as keeps it.
pub application_life :
    (owner : ℕ) (cells : List Cmd) (answers : Answers) (module_ : List PyCall)
    → length cells ≡ 128
    → AllFinishing module_
    → (made started gone : Application) × (making running ending : List Call) × (application_ctor
          false false true
          (some cells)
          owner
        ≡ returns (made, making))
      × (application_start made answers module_ ≡ ran (started, 0) running)
      × (application_dtor started ≡ returns (gone, ending))
      × (gil_after true making ≡ some true)
      × (gil_after true running ≡ some true)
      × (gil_after true ending ≡ some true)
      × (started.run_phase ≡ app_run_phase_dying)
      × (started.python_thread_state ≡ false)
      × (count is_keeping making + count is_keeping running
          ≡ count is_letting_go making + count is_letting_go running)
      × (gone.run_phase ≡ app_run_phase_exit)
unfolding application_ctor application_dtor cmd_q_start cmd_q_delete cmd_q_stop gil_after count
    is_keeping is_letting_go
application_life owner cells answers module_ h f =
    let (q, new, r) = new-holds_nothing 128 owner cells (omega arith) (omega arith) h in
    let made : Application = record {
      run_phase = app_run_phase_init;
      exit_status = 0;
      python_thread_state = false;
      cmd_q = record q { owner = some owner };
    } in
    let making : List Call =
      mutex_init
      ∷ async_init
      ∷ (cmd_q_start q
          ++ signal_init 2
            ∷ signal_start 2
            ∷ signal_init 15
            ∷ signal_start 15
            ∷ py_api
            ∷ py_api
            ∷ py_api
            ∷ py_api
            ∷ py_api
            ∷ []) in
    let ending : CmdQ → List Call = λ q.
      cmd_q_stop q
      ++ py_api
        ∷ signal_stop 2
        ∷ signal_stop 15
        ∷ mutex_destroy
        ∷ ((if q.head == q.tail then [] else log ∷ []) ++ free ∷ []) in
    let (started, running, ran_it, locked, kept, let_go, dying, outside) =
      application_start-ends made [] answers module_ r refl f in
    (
      made,
      started,
      record started { run_phase = app_run_phase_exit },
      making,
      running,
      ending started.cmd_q,
      rw (application_ctor, new) refl,
      ran_it,
      left_out _ _ outside,
      refl,
      locked,
      ground arith,
      dying,
      outside,
      omega (arith, kept, let_go),
      refl,
    )
