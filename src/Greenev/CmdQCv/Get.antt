-- ===== src/Greenev/CmdQCv/Get.antt =====
-- `cond_cmd_q_get` and `cond_cmd_q_timed_get` of greenev/cmdq_cv.c, on every way through.
use striga2_pocs.Base.{
  ℕ, ◌≡◌, refl, ◌∙◌, subst, inl, inr, ◌⊎◌, Bool, true, false, Option, none, some, List, [], ◌∷◌,
  ◌++◌, arith, ◌==◌, if◌then◌else◌, List-cases, ℤ, pos, negsuc,
}
use striga2_pocs.Calls.{
  Call, Outcome, returns, aborts, mutex_lock, mutex_unlock, cond_signal, log, mutex_after,
  mutex_after-append,
}
use striga2_pocs.Greenev.Cmd.{Cmd}
use striga2_pocs.Greenev.CmdQCv.{
  CondCmdQ, cond_cmd_q_empty, cond_cmd_q_get, cond_cmd_q_timed_get, cond_cmd_q_get_internal,
}
use striga2_pocs.Greenev.CmdQCv.Wait.{
  Wake, Waited, ready, failed, blocked, wait_while, timed_wait_while, Throughout, Throughout-first,
  Ends, wait_while-Ends, wait_while-ready, timed_wait_while-Ends,
}
use striga2_pocs.Greenev.CmdQCv.Indices.{
  Represents, Represents-indices_in, empty_iff, get_internal-Represents,
}
use striga2_pocs.Greenev.CmdQCv.Put.{Is}

-- A get from a queue that holds something neither waits nor fails: it takes the oldest command,
-- wakes a producer, and holds the mutex only meanwhile.
pub get-at_once :
    (this : CondCmdQ) (size : ℕ) (x : Cmd) (xs : List Cmd) (wakes : List (Wake CondCmdQ))
    → Represents this size (x ∷ xs)
    → (this' : CondCmdQ) × (cond_cmd_q_get this 0 wakes 0
        ≡ returns (some (this', true, some x, mutex_lock ∷ cond_signal 0 ∷ mutex_unlock ∷ [])))
      × Represents this' size xs
unfolding cond_cmd_q_get
get-at_once this size x xs wakes r =
    let (front, rest) = get_internal-Represents r in
    (
      (cond_cmd_q_get_internal this).0,
      rw (Represents-indices_in r, wait_while-ready cond_cmd_q_empty 1 wakes this open_) (rw front),
      rest,
    )
  where
    open_ : cond_cmd_q_empty this ≡ false
    open_ = ground (arith, empty_iff r)

-- The oldest command of a queue that had `P` is taken out.
abbrev pub Taken : (CondCmdQ → Type 0) → ℕ → CondCmdQ → Option Cmd → Type 0
Taken P size this cmd_out =
    (before : CondCmdQ) × (x : Cmd) × (xs : List Cmd) × P before
    × Represents before size (x ∷ xs)
    × (cmd_out ≡ some x)
    × Represents this size xs

-- How a get may end: still waiting, or returned with the mutex given back.
abbrev pub GetResult :
    (CondCmdQ → Type 0) → ℕ → Outcome (Option (CondCmdQ × Bool × Option Cmd × List Call)) → Type 0
GetResult P size aborts = ⊥
GetResult P size (returns none) = Unit
GetResult P size (returns (some (this, done, cmd_out, calls))) =
    (mutex_after false calls ≡ some false)
    × ((done ≡ true) × Taken P size this cmd_out ⊎ (done ≡ false) × (cmd_out ≡ none) × P this)

abbrev pub TimedGetResult :
    (CondCmdQ → Type 0) → ℕ → Outcome (Option (CondCmdQ × ℤ × Option Cmd × List Call)) → Type 0
TimedGetResult P size aborts = ⊥
TimedGetResult P size (returns none) = Unit
TimedGetResult P size (returns (some (this, result, cmd_out, calls))) =
    (mutex_after false calls ≡ some false)
    × ((result ≡ pos 1) × Taken P size this cmd_out
        ⊎ ((result ≡ pos 0) ⊎ (result ≡ negsuc 0)) × (cmd_out ≡ none) × P this)

module _ (P : CondCmdQ → Type 0) (size : ℕ) where
  taken :
      (this : CondCmdQ)
      → Is P size this
      → cond_cmd_q_empty this ≡ false
      → Taken P size (cond_cmd_q_get_internal this).0 (cond_cmd_q_get_internal this).1
  taken this (p, (xs, r)) h = elim (List-cases xs) [
    | inl e ↦ absurd (ground (arith, empty_iff r))
    | inr (y, ys, e) ↦
        let r' : Represents this size (y ∷ ys) = subst (Represents this size) e r in
        let (front, rest) = get_internal-Represents r' in (this, y, ys, p, r', front, rest)
  ]

  closed :
      (calls after : List Call)
      → mutex_after true calls ≡ some true
      → mutex_after true after ≡ some false
      → mutex_after false (mutex_lock ∷ (calls ++ after)) ≡ some false
  unfolding mutex_after
  closed calls after h e = mutex_after-append true true calls after h ∙ e

  get_finish :
      (o : Waited CondCmdQ)
      → Ends cond_cmd_q_empty 1 (Is P size) o
      → GetResult P size (elim o [
        | blocked ↦ returns none
        | failed err this' calls ↦
            returns (some (this', false, none, mutex_lock ∷ (calls ++ log ∷ mutex_unlock ∷ [])))
        | ready this' calls ↦
            let (this'', cmd_out, signal) = cond_cmd_q_get_internal this' in
            returns
              (some (this'', true, cmd_out, mutex_lock ∷ (calls ++ (signal ++ mutex_unlock ∷ []))))
      ])
  unfolding mutex_after cond_cmd_q_get_internal
  get_finish (ready q calls) e = (closed calls _ e.2 refl, inl (refl, taken q e.0 e.1))
  get_finish (failed err q calls) e = (closed calls _ e.2 refl, inr (refl, refl, e.0.0))
  get_finish blocked e = tt

  -- Whatever the other threads do while the consumer waits, as long as they leave a queue of `size`
  -- cells with the property `P` at each wake: a get that returns true has taken the oldest command
  -- of such a queue, and only that one; one that returns false has taken nothing. Both give the
  -- mutex back. No assert fails. (The calls that lock and unlock the mutex succeed.)
  pub get_ends :
      (this : CondCmdQ) (wakes : List (Wake CondCmdQ))
      → Throughout cond_cmd_q_empty 1 (Is P size) wakes this
      → GetResult P size (cond_cmd_q_get this 0 wakes 0)
  unfolding cond_cmd_q_get
  get_ends this wakes t =
      rw (Represents-indices_in (Throughout-first cond_cmd_q_empty 1 (Is P size) wakes this t).1.1)
        (get_finish (wait_while cond_cmd_q_empty 1 wakes this)
          (wait_while-Ends cond_cmd_q_empty 1 (Is P size) wakes this t))

  timed_get_finish :
      (etimedout : ℕ) (o : Waited CondCmdQ)
      → Ends cond_cmd_q_empty 1 (Is P size) o
      → TimedGetResult P size (elim o [
        | blocked ↦ returns none
        | failed err this' calls ↦ returns (
            some (
              this',
              (if err == etimedout then pos 0 else negsuc 0),
              none,
              mutex_lock ∷ (calls ++ mutex_unlock ∷ []),
            ))
        | ready this' calls ↦
            let (this'', cmd_out, signal) = cond_cmd_q_get_internal this' in
            returns
              (some (this'', pos 1, cmd_out, mutex_lock ∷ (calls ++ (signal ++ mutex_unlock ∷ []))))
      ])
  unfolding mutex_after cond_cmd_q_get_internal
  timed_get_finish etimedout (ready q calls) e =
      (closed calls _ e.2 refl, inl (refl, taken q e.0 e.1))
  timed_get_finish etimedout (failed err q calls) e =
      (closed calls _ e.2 refl, inr (ground arith, refl, e.0.0))
  timed_get_finish etimedout blocked e = tt

  -- Whatever the other threads do while the consumer waits, as long as they leave a queue of `size`
  -- cells with the property `P` at each wake: a timed get that returns 1 has taken the oldest command
  -- of such a queue, and only that one; one that returns 0 or -1 has taken nothing. All give the
  -- mutex back. No assert fails. (The calls that lock and unlock the mutex succeed.)
  pub timed_get_ends :
      (etimedout : ℕ) (this : CondCmdQ) (timeout_ms : ℕ) (wakes : List (Wake CondCmdQ))
      → Throughout cond_cmd_q_empty 1 (Is P size) wakes this
      → TimedGetResult P size (cond_cmd_q_timed_get etimedout this timeout_ms 0 wakes 0)
  unfolding cond_cmd_q_timed_get
  timed_get_ends etimedout this timeout_ms wakes t =
      rw (Represents-indices_in (Throughout-first cond_cmd_q_empty 1 (Is P size) wakes this t).1.1)
        (timed_get_finish etimedout (timed_wait_while cond_cmd_q_empty 1 timeout_ms wakes _ this)
          (timed_wait_while-Ends cond_cmd_q_empty 1 (Is P size) timeout_ms wakes _ this t))
