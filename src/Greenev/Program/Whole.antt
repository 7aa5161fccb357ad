-- ===== src/Greenev/Program/Whole.antt =====
-- The program of greenev as a whole, from `application_ctor` on: what keeps its main loop running,
-- that no command of a thread ends the process, and that it can come to its end once a signal has
-- come.
use striga2_pocs.Base.{
  ℕ, ◌+◌, ◌<◌, ◌≡◌, ◌⊎◌, refl, sym, ◌∙◌, subst, inl, inr, Bool, true, false, some, List, ◌++◌,
  length, arith, ap,
}
use striga2_pocs.Calls.{
  Call, count, count-append, is_keeping, is_letting_go, Outcome, returns, aborts,
}
use striga2_pocs.Greenev.Cmd.{Cmd}
use striga2_pocs.Greenev.CmdQCv.{CondCmdQ}
use striga2_pocs.Greenev.CmdQCv.Wait.{Wake}
use striga2_pocs.Greenev.App.{
  Application, Creation, created, application_ctor, io_thread_ctor, py_thread_ctor,
  on_terminating_signal, app_run_phase_run,
}
use striga2_pocs.Greenev.App.Shutdown.{exits, told_to_end, application_die-tells}
use striga2_pocs.Greenev.App.Starting.{Made, application_ctor-made}
use striga2_pocs.Greenev.IoThread.{SockObj}
use striga2_pocs.Greenev.System.{die_cmd}
use striga2_pocs.Greenev.Program.{Program, started, signalled, Turn, signals, Turns, goes}
use striga2_pocs.Greenev.Program.Sound.{
  remaining, admit-one, remaining-cases, AllEnded, Running, Dying, Turned, io_left, py_left,
}
use striga2_pocs.Greenev.Program.Finishing.{Turns-append, finishes}
use striga2_pocs.Greenev.Program.Runs.{Turn-Turned, Turns-Turned, started-Sound}

AllEnded-remaining : (p : Program) → AllEnded p → remaining p ≡ 0
unfolding remaining
AllEnded-remaining p e =
    rw e.dying (omega (arith, e.exits_taken, ap io_left e.io_gone, ap py_left e.py_gone))

-- What the constructor returns, where it returns.
abbrev MadeBy : Outcome (Application × List Call) → Type 0
MadeBy aborts = ⊥
MadeBy (returns (app, made)) = Made app made

-- The constructor and the turns together.
balanced :
    (app : Application) (p : Program) (made calls : List Call)
    → Made app made
    → count is_keeping calls + remaining (started app) ≡ count is_letting_go calls + remaining p
    → count is_keeping (made ++ calls) ≡ count is_letting_go (made ++ calls) + remaining p
unfolding remaining exits
balanced app p made calls m e =
    omega (
      arith,
      e,
      m.balance,
      count-append is_keeping made calls,
      count-append is_letting_go made calls,
    )

-- The main thread has made its queues of 256 cells and its threads, and since then the threads have
-- taken their turns.
module _ (memory : ℕ → SockObj) (intact : ℕ → Bool) (app_memory io_memory py_memory : List Cmd)
    (this start : ℕ) (creation creation' : Creation) (app : Application) (p : Program)
    (made calls : List Call) (intact_memory : (address : ℕ) → intact address ≡ true)
    (sized : length app_memory ≡ 256) (sized' : length io_memory ≡ 256)
    (sized'' : length py_memory ≡ 256) (made_one : created creation ≡ true)
    (made_other : created creation' ≡ true)
    (ctor : application_ctor false true
        (some app_memory)
        this
        (io_thread_ctor true (some io_memory) start this creation)
        (py_thread_ctor false (some py_memory) creation')
      ≡ returns (app, made))
    (turns : Turns memory intact (started app) calls p) where
  begun : Made app made
  begun =
      let (_, _, e, m) =
        application_ctor-made app_memory io_memory py_memory this start creation creation' sized
          sized' sized'' made_one made_other in
      subst MadeBy (sym e ∙ ctor) m

  pub reached :
      Turned app.io_thread.cmd_q.callbackarg app.app_cmd_q.callbackarg (started app) calls p
  reached = Turns-Turned memory intact _ _ intact_memory (started-Sound begun) turns

  -- After any number of turns of the threads, in any order, what keeps the main event loop running
  -- exceeds what lets it go by two as long as no terminating signal has come, for its two watchers,
  -- by one for each thread that has not ended, and by one for each exit of a thread that waits in
  -- the queue of the application; and the application is either running, with no thread told to end,
  -- or dying, with DIE put to the I/O thread. So as long as the application is not dying, or a
  -- thread has not ended, or the main thread has not taken an exit, more keeps the loop running than
  -- lets it go. (The queues have their 256 cells,
  -- both threads are created, and freed memory keeps what it was.)
  pub main_loop-kept :
      (count is_keeping (made ++ calls) ≡ count is_letting_go (made ++ calls) + remaining p)
      × (Running p ⊎ Dying p)
      × (AllEnded p ⊎ (count is_letting_go (made ++ calls) < count is_keeping (made ++ calls)))
  unfolding Turned
  main_loop-kept =
      let (e, sound) = reached in
      let balance = balanced app p made calls begun e in
      (
        balance,
        sound.phase,
        elim (remaining-cases p) [
          | inl done_ ↦ inl done_
          | inr left ↦ inr (omega (arith, balance, left))
        ],
      )

  -- In any state that the program can reach in which no terminating signal has come yet and the
  -- queue of the I/O thread is not full, a terminating signal is dealt with at once, and from then on
  -- there are turns that lead to the end: both threads have ended, the I/O thread at a moment when
  -- no watcher of a socket kept its loop running, the main thread has taken their exits, and nothing
  -- keeps its own event loop running. (The queues have their 256 cells, both threads are created, and
  -- freed memory keeps what it was.)
  pub program-can_end :
      (signum : ℕ) (wakes : List (Wake CondCmdQ))
      → p.app.run_phase ≡ app_run_phase_run
      → length p.waiting < 255
      → (app' : Application) × (first : List Call) × (on_terminating_signal p.app signum wakes
          ≡ returns (some (app', first)))
        × ((p' : Program) × (more : List Call) × Turns memory intact (signalled p app') more p'
            × AllEnded p'
            × (count is_keeping (made ++ (calls ++ (first ++ more)))
                ≡ count is_letting_go (made ++ (calls ++ (first ++ more)))))
  unfolding Turned on_terminating_signal
  program-can_end signum wakes runs room =
      let (_, sound) = reached in
      elim sound.phase [
        | inr d ↦ absurd (omega (arith, runs, d.phase))
        | inl r ↦
            let (q, first, e, _, _, _) = application_die-tells p.app wakes r.py_untold in
            let app' = told_to_end p.app q in
            let turn : Turn memory intact p first (signalled p app') =
              signals p signum wakes app' first runs e in
            let (_, sound') = Turn-Turned memory intact _ _ intact_memory sound turn in
            let (p', more, turns', _, _, last) =
              finishes memory intact intact_memory _ _ p.waiting (signalled p app')
                (admit-one 255 p.waiting die_cmd room) sound' refl (λ g. cc (r.stage, g)) in
            let balance =
              balanced app p' made (calls ++ (first ++ more)) begun
                (Turns-Turned memory intact _ _ intact_memory (started-Sound begun)
                  (Turns-append memory intact intact_memory turns (goes turn turns'))).0 in
            (
              app',
              first,
              e,
              (p', more, turns', last, omega (arith, balance, AllEnded-remaining p' last)),
            )
      ]
