-- ===== src/Greenev/Main.antt =====
-- `main` of greenev/greenev.c, over the turns that its threads take.
use striga2_pocs.Base.{
  ℕ, ◌≡◌, refl, ap, inl, inr, Bool, true, false, Option, none, some, List, [], ◌∷◌, ◌++◌, length,
  arith,
}
use striga2_pocs.Calls.{Call, Outcome, returns, aborts, log, count, is_keeping, is_letting_go}
use striga2_pocs.Greenev.Cmd.{Cmd}
use striga2_pocs.Greenev.IoThread.{SockObj, IoThread}
use striga2_pocs.Greenev.App.{
  Application, PyThread, Creation, created, io_thread_ctor, py_thread_ctor, application_ctor,
  application_run, application_dtor, Round, run_rounds, app_run_phase_run,
}
use striga2_pocs.Greenev.Program.{Program, started, Turns}
use striga2_pocs.Greenev.Program.Sound.{AllEnded, Turned}
use striga2_pocs.Greenev.Program.Whole.{reached, main_loop-kept}
use striga2_pocs.Greenev.Program.Finishing.{Turns-append}

-- `major` and `minor` say whether the version of libev fits; then come the arguments of the
-- constructor, and the calls of `ev_run`. `returns none` is a program that still runs. The log is set
-- up and flushed without a trace.
unfoldable pub main :
    (major minor has_loop : Bool)
    → Option (List Cmd)
    → (this : ℕ) → Outcome (IoThread × List Call)
    → Outcome (PyThread × List Call)
    → List Round
    → Outcome (Option (ℕ × List Call))
main false minor has_loop memory this io py rounds = aborts
main true false has_loop memory this io py rounds = aborts
main true true has_loop memory this io py rounds =
    elim (application_ctor false has_loop memory this io py) [
      | aborts ↦ aborts
      | returns (app, making) ↦ elim (application_run app rounds) [
        | none ↦ returns none
        | some (app', ret, running) ↦
            let (_, ending) = application_dtor app' in
            returns (some (ret, making ++ (running ++ log ∷ ending)))
      ]
    ]

module _ (memory : ℕ → SockObj) (intact : ℕ → Bool) where
  -- The calls of `ev_run` while the threads take their turns: all but the last return true.
  pub data Rounds : Program → List Round → List Call → Program → Type 0 where
    ends :
        {p p' : Program} {calls : List Call}
        → Turns memory intact p calls p'
        → Rounds p ((record { left = p'.app; calls = calls; keep_running = false }) ∷ []) calls p'
    again :
        {p p' p'' : Program} {calls more : List Call} {rounds : List Round}
        → Turns memory intact p calls p'
        → Rounds p' rounds more p''
        → Rounds p
            ((record { left = p'.app; calls = calls; keep_running = true }) ∷ rounds)
            (calls ++ more)
            p''

  Rounds-Turns :
      {p p' : Program} {rounds : List Round} {calls : List Call}
      → ((address : ℕ) → intact address ≡ true)
      → Rounds p rounds calls p'
      → Turns memory intact p calls p'
  Rounds-Turns h (ends turns) = turns
  Rounds-Turns h (again turns rounds) = Turns-append memory intact h turns (Rounds-Turns h rounds)

  Rounds-run :
      {p p' : Program} {rounds : List Round} {calls : List Call} (app : Application)
      → Rounds p rounds calls p'
      → run_rounds app rounds ≡ some (p'.app, calls)
  unfolding run_rounds
  Rounds-run app (ends turns) = refl
  Rounds-run app (again {p' = p'} turns rounds) = rw (Rounds-run p'.app rounds) refl

module _ (memory : ℕ → SockObj) (intact : ℕ → Bool) (app_memory io_memory py_memory : List Cmd)
    (this start : ℕ) (creation creation' : Creation) (app : Application) (p : Program)
    (made calls : List Call) (intact_memory : (address : ℕ) → intact address ≡ true)
    (sized : length app_memory ≡ 256) (sized' : length io_memory ≡ 256)
    (sized'' : length py_memory ≡ 256) (made_one : created creation ≡ true)
    (made_other : created creation' ≡ true)
    (ctor : application_ctor false true
        (some app_memory)
        this
        (io_thread_ctor true (some io_memory) start this creation)
        (py_thread_ctor false (some py_memory) creation')
      ≡ returns (app, made))
    (rounds : List Round) (turns : Rounds memory intact (started app) rounds calls p) where
  -- Let `ev_run` return true for any number of rounds and then false, the threads take their turns
  -- meanwhile, and in the end nothing keep the main event loop running. Then the program returns, with
  -- exit code 0, and both threads have ended before `application_dtor` joins the Python thread. (The
  -- queues have their 256 cells, both threads are created, libev is the right one and gives a loop,
  -- and freed memory keeps what it was.)
  pub main-returns :
      count is_keeping (made ++ calls) ≡ count is_letting_go (made ++ calls)
      → (all : List Call) × (main true true true
            (some app_memory)
            this
            (io_thread_ctor true (some io_memory) start this creation)
            (py_thread_ctor false (some py_memory) creation')
            rounds
          ≡ returns (some (0, all)))
        × AllEnded p
  unfolding main application_run Turned application_dtor
  main-returns nothing_left =
      let all_turns = Rounds-Turns memory intact intact_memory turns in
      let (_, sound) =
        reached memory intact app_memory io_memory py_memory this start creation creation' app p
          made calls intact_memory sized sized' sized'' made_one made_other ctor all_turns in
      let (_, _, at_end) =
        main_loop-kept memory intact app_memory io_memory py_memory this start creation creation'
          app p made calls intact_memory sized sized' sized'' made_one made_other ctor all_turns in
      let ran = Rounds-run memory intact (record app { run_phase = app_run_phase_run }) turns in
      let all = made ++ ((log ∷ calls) ++ log ∷ (application_dtor p.app).1) in
      (
        all,
        rw (ctor, main, ran, application_run)
            (ap (λ (ret : ℕ). returns (some (ret, all))) sound.status),
        elim at_end [ inl done_ ↦ done_ | inr more ↦ absurd (omega (arith, nothing_left, more)) ],
      )
