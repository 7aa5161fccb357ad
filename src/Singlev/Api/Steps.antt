-- ===== src/Singlev/Api/Steps.antt =====
-- What the calls that singlev/src/pysevapi.c offers to Python do to the application, one by one.
use striga2_pocs.Base.{
  ℕ, ◌≡◌, refl, sym, ◌∙◌, inl, inr, Bool, true, false, some, List, [], ◌∷◌, ◌++◌, arith, ◌==◌,
  if◌then◌else◌,
}
use striga2_pocs.Calls.{
  Call, gil_save, gil_restore, py_api, count, count-append, gil_after, gil_after-append, is_keeping,
  is_letting_go,
}
use striga2_pocs.Singlev.App.{
  Application, LoopEvent, ran, application_command, app_run_phase_run, app_run_phase_dying,
  app_cmd_id_listen,
}
use striga2_pocs.Singlev.App.Loop.{
  Live, Goes, Goes-append, application_command-Goes, application_run-Goes, Finishing,
}
use striga2_pocs.Singlev.Api.{
  app_ready, api_application_run, api_application_listen, PyCall, run, listen, py_calls,
}

-- Calls under the interpreter lock that have nothing to do with the event loop.
pub api-Goes :
    (this : Application) (calls : List Call)
    → Live this
    → gil_after true calls ≡ some true
    → count is_keeping calls ≡ 0
    → count is_letting_go calls ≡ 0
    → Goes true this this calls
api-Goes this calls l g k n = record {
  gil = g;
  keeping = k;
  letting_go = omega (arith, n);
  thread = refl;
  status = refl;
  live = l;
}

-- A stretch without the interpreter lock, between giving it up and taking it again.
unlocked-Goes :
    (this this' : Application) (calls last : List Call)
    → Goes false this this' calls
    → gil_after true last ≡ some true
    → count is_keeping last ≡ 0
    → count is_letting_go last ≡ 0
    → Goes true this this' (py_api ∷ gil_save ∷ (calls ++ gil_restore ∷ last))
unfolding gil_after count is_keeping is_letting_go
unlocked-Goes this this' calls last g e k n = record {
  gil = gil_after-append false false calls (gil_restore ∷ last) g.gil ∙ e;
  keeping = omega (arith, count-append is_keeping calls (gil_restore ∷ last), g.keeping, k);
  letting_go =
      omega (arith, count-append is_letting_go calls (gil_restore ∷ last), g.letting_go, n);
  thread = g.thread;
  status = g.status;
  live = g.live;
}

taken : {A : Type 0} {b : Bool} (x y : A) → b ≡ true → (if b then x else y) ≡ x
taken x y e = rw e refl

pub left_out : {A : Type 0} {b : Bool} (x y : A) → b ≡ false → (if b then x else y) ≡ y
left_out x y e = rw e refl

-- The tests of the phase, as Booleans.
running_test : (phase : ℕ) → phase ≡ app_run_phase_run → (phase == app_run_phase_run) ≡ true
running_test phase e = rw e refl

pub dying_test : (phase : ℕ) → phase ≡ app_run_phase_dying → (phase == app_run_phase_run) ≡ false
dying_test phase e = rw e refl

ready_running :
    (this : Application) → this.run_phase ≡ app_run_phase_run → app_ready (some this) ≡ (true, [])
unfolding app_ready
ready_running this e = taken _ _ (running_test this.run_phase e)

ready_dying :
    (this : Application)
    → this.run_phase ≡ app_run_phase_dying
    → app_ready (some this) ≡ (false, py_api ∷ [])
unfolding app_ready
ready_dying this e = left_out _ _ (dying_test this.run_phase e)

-- Entering the event loop gives the interpreter lock up and takes it again, and leaves no thread in
-- the loop. The arguments parse or not, and the application runs or is dying.
api_application_run-Goes :
    (parsed : Bool) (rounds : List (List LoopEvent × Bool)) (this : Application)
    → Live this
    → this.python_thread_state ≡ false
    → Finishing rounds
    → (this' : Application) × (done : Bool) × (calls : List Call) × (api_application_run parsed
          rounds this
        ≡ ran (this', done) calls)
      × Goes true this this' calls
unfolding api_application_run gil_after count is_keeping is_letting_go
api_application_run-Goes false rounds this l t f =
    (this, false, py_api ∷ [], refl, api-Goes this (py_api ∷ []) l refl refl refl)
api_application_run-Goes true rounds this l t f = elim l.phase [
  | inr e ↦ (
    this,
    false,
    py_api ∷ py_api ∷ [],
    rw (api_application_run, ready_dying this e) refl,
    api-Goes this (py_api ∷ py_api ∷ []) l refl refl refl,
  )
  | inl e ↦
      let inside : Application = record this { python_thread_state = true } in
      let inside-Live : Live inside = record { phase = l.phase; held = l.held; queue = l.queue } in
      let (this', calls, all, g) = application_run-Goes false inside rounds inside-Live f in
      let g' : Goes false this (record this' { python_thread_state = false }) calls = record {
        gil = g.gil;
        keeping = g.keeping;
        letting_go = g.letting_go;
        thread = sym t;
        status = g.status;
        live = record { phase = g.live.phase; held = g.live.held; queue = g.live.queue };
      } in
      (
        record this' { python_thread_state = false },
        true,
        py_api ∷ gil_save ∷ (calls ++ gil_restore ∷ []),
        rw (api_application_run, ready_running this e)
            (left_out _ _ t ∙ rw (all, ready_running this e) refl),
        unlocked-Goes this _ calls [] g' refl refl refl,
      )
]

api_application_listen-Goes :
    (parsed : Bool) (this : Application)
    → Live this
    → let (this', result, calls) = api_application_listen parsed this in Goes true this this' calls
unfolding api_application_listen gil_after count is_keeping is_letting_go
api_application_listen-Goes false this l = api-Goes this (py_api ∷ []) l refl refl refl
api_application_listen-Goes true this l = elim l.phase [
  | inr e ↦
      rw (api_application_listen, ready_dying this e)
        (api-Goes this (py_api ∷ py_api ∷ []) l refl refl refl)
  | inl e ↦
      let (this', result, calls) = application_command this app_cmd_id_listen 0 in
      rw (api_application_listen, ready_running this e)
        (unlocked-Goes this this' calls (if result then [] else py_api ∷ [])
          (application_command-Goes false this app_cmd_id_listen 0 l) (ground arith) (ground arith)
          (ground arith))
]

-- In each use of the event loop `ev_run` returns false once.
abbrev pub AllFinishing : List PyCall → Type 0
AllFinishing [] = Unit
AllFinishing (run parsed rounds ∷ more) = Finishing rounds × AllFinishing more
AllFinishing (listen parsed ∷ more) = AllFinishing more

pub py_calls-Goes :
    (this : Application) (module_ : List PyCall)
    → Live this
    → this.python_thread_state ≡ false
    → AllFinishing module_
    → (this' : Application) × (calls : List Call) × (py_calls this module_ ≡ ran this' calls)
      × Goes true this this' calls
unfolding py_calls gil_after count is_keeping is_letting_go
py_calls-Goes this [] l t f = (this, [], refl, api-Goes this [] l refl refl refl)
py_calls-Goes this (run parsed rounds ∷ more) l t (f, fs) =
    let (this', done, calls, one, g) = api_application_run-Goes parsed rounds this l t f in
    let (this'', later, all, g') = py_calls-Goes this' more g.live (g.thread ∙ t) fs in
    (this'', calls ++ later, rw (py_calls, one, all) refl, Goes-append g g')
py_calls-Goes this (listen parsed ∷ more) l t f =
    let g = api_application_listen-Goes parsed this l in
    let (this', result, calls) = api_application_listen parsed this in
    let (this'', later, all, g') = py_calls-Goes this' more g.live (g.thread ∙ t) f in
    (this'', calls ++ later, rw (py_calls, all) refl, Goes-append g g')
