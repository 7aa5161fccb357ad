-- ===== src/Greenev/Program/Sound.antt =====
-- What holds of the program of greenev between two turns of its threads.
use striga2_pocs.Base.{
  ℕ, zero, suc, ◌+◌, ◌<◌, ◌≤◌, ◌≡◌, ◌⊎◌, refl, inl, inr, Bool, true, false, List, [], ◌∷◌, ◌++◌,
  length, ltb, ◌==◌, arith, Bool-cases, ==-cases, if◌then◌else◌,
}
use striga2_pocs.Calls.{Call, count, is_keeping, is_letting_go}
use striga2_pocs.Fifo.{admit, admit-cons, admit-nil}
use striga2_pocs.Greenev.Cmd.{Cmd}
use striga2_pocs.Greenev.CmdQEv.Drain.{Keeps}
use striga2_pocs.Greenev.CmdQCv.Indices.{Represents}
use striga2_pocs.Greenev.IoThread.{iot_cmd_io_thread_die}
use striga2_pocs.Greenev.App.{app_run_phase_run, app_run_phase_dying, app_cmd_io_thread_exit}
use striga2_pocs.Greenev.App.Shutdown.{exits}
use striga2_pocs.Greenev.System.{refused}
use striga2_pocs.Greenev.Program.{Program, IoStage, serving, stopping, gone}

-- How many commands have an id.
unfoldable pub of_id : ℕ → List Cmd → ℕ
of_id id [] = 0
of_id id (c ∷ cs) = (if c.id == id then 1 else 0) + of_id id cs

pub of_id-append : (id : ℕ) (xs ys : List Cmd) → of_id id (xs ++ ys) ≡ of_id id xs + of_id id ys
unfolding of_id
of_id-append id [] ys = omega arith
of_id-append id (x ∷ xs) ys = omega (arith, of_id-append id xs ys)

-- A command that is put waits or is refused.
pub of_id-admit :
    (id capacity : ℕ) (xs cs : List Cmd)
    → of_id id (admit capacity xs cs) + of_id id (refused capacity xs cs)
      ≡ of_id id xs + of_id id cs
unfolding of_id refused
of_id-admit id capacity xs [] = rw (admit-nil capacity xs) (omega arith)
of_id-admit id capacity xs (c ∷ cs) = elim (Bool-cases (ltb (length xs) capacity)) [
  | inl e ↦
      rw (admit-cons capacity xs c cs, e)
        (omega (arith, of_id-admit id capacity (xs ++ c ∷ []) cs, of_id-append id xs (c ∷ [])))
  | inr e ↦ rw (admit-cons capacity xs c cs, e) (omega (arith, of_id-admit id capacity xs cs))
]

pub exits-append : (xs ys : List Cmd) → exits (xs ++ ys) ≡ exits xs + exits ys
unfolding exits
exits-append [] ys = omega arith
exits-append (x ∷ xs) ys = omega (arith, exits-append xs ys)

-- One command, where there is room.
pub admit-one :
    (capacity : ℕ) (xs : List Cmd) (c : Cmd)
    → length xs < capacity
    → admit capacity xs (c ∷ []) ≡ xs ++ c ∷ []
admit-one capacity xs c h =
    let room : ltb (length xs) capacity ≡ true = ground arith in
    rw (admit-cons capacity xs c [], room, admit-nil) refl

-- The references to the main loop that a thread will still let go by a command of its own.
abbrev pub io_left : IoStage → ℕ
io_left serving = 1
io_left stopping = 1
io_left gone = 0

abbrev pub py_left : Bool → ℕ
py_left true = 1
py_left false = 0

-- What keeps the main loop running: the two signal watchers, until the application is dying; each
-- thread that has not ended; and each exit of a thread that the main thread has not yet taken.
unfoldable pub remaining : Program → ℕ
remaining p =
    (if p.app.run_phase == app_run_phase_dying then 0 else 2)
    + io_left p.io_stage
    + py_left p.py_alive
    + exits p.told

-- The application is dying, both threads have ended, and the main thread has taken their exits.
pub record AllEnded (p : Program) : Type 0 where
  pub dying : p.app.run_phase ≡ app_run_phase_dying
  pub io_gone : p.io_stage ≡ gone
  pub py_gone : p.py_alive ≡ false
  pub exits_taken : exits p.told ≡ 0

nat-cases : (n : ℕ) → (n ≡ 0) ⊎ (0 < n)
nat-cases zero = inl refl
nat-cases (suc n) = inr (omega arith)

io_left-cases : (stage : IoStage) → (stage ≡ gone) ⊎ (io_left stage ≡ 1)
io_left-cases serving = inr refl
io_left-cases stopping = inr refl
io_left-cases gone = inl refl

py_left-cases : (alive : Bool) → (alive ≡ false) ⊎ (py_left alive ≡ 1)
py_left-cases true = inr refl
py_left-cases false = inl refl

pub remaining-cases : (p : Program) → AllEnded p ⊎ (0 < remaining p)
unfolding remaining
remaining-cases p = elim (==-cases p.app.run_phase app_run_phase_dying) [
  | inr (t, _) ↦ inr (rw t (omega arith))
  | inl (_, d) ↦ elim (io_left-cases p.io_stage) [
    | inr l ↦ inr (omega (arith, l))
    | inl g ↦ elim (py_left-cases p.py_alive) [
      | inr l ↦ inr (omega (arith, l))
      | inl f ↦ elim (nat-cases (exits p.told)) [
        | inr some_wait ↦ inr (omega (arith, some_wait))
        | inl none_wait ↦
            inl (record { dying = d; io_gone = g; py_gone = f; exits_taken = none_wait })
      ]
    ]
  ]
]

-- Before the first signal: no thread has been told to end.
pub record Running (p : Program) : Type 0 where
  pub phase : p.app.run_phase ≡ app_run_phase_run
  pub stage : p.io_stage ≡ serving
  pub no_die : of_id iot_cmd_io_thread_die p.waiting ≡ 0
  pub no_exit : of_id app_cmd_io_thread_exit p.told ≡ 0
  pub py_untold : Represents p.app.py_thread.cmd_q 256 []

-- After it: the command DIE waits, found the queue full, or has been carried out.
abbrev pub carried_out : IoStage → ℕ
carried_out serving = 0
carried_out stopping = 1
carried_out gone = 1

pub record Dying (p : Program) : Type 0 where
  pub phase : p.app.run_phase ≡ app_run_phase_dying
  pub die_put :
      1
      ≤ of_id iot_cmd_io_thread_die p.waiting
        + of_id iot_cmd_io_thread_die p.lost
        + carried_out p.io_stage

pub record Sound (io_arg app_arg : ℕ) (p : Program) : Type 0 where
  pub io_keeps : Keeps p.app.io_thread.cmd_q 256 io_arg p.waiting
  pub app_keeps : Keeps p.app.app_cmd_q 256 app_arg p.told
  pub few : length p.told + io_left p.io_stage + py_left p.py_alive ≤ 2
  pub status : p.app.exit_status ≡ 0
  pub phase : Running p ⊎ Dying p

-- What a turn does: what keeps the loop changes by what it calls, and the program stays sound.
unfoldable pub Turned : ℕ → ℕ → Program → List Call → Program → Type 0
Turned io_arg app_arg p calls p' =
    (count is_keeping calls + remaining p ≡ count is_letting_go calls + remaining p')
    × Sound io_arg app_arg p'
