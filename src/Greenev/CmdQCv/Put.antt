-- ===== src/Greenev/CmdQCv/Put.antt =====
-- `cond_cmd_q_put` and `cond_cmd_q_timed_put` of greenev/cmdq_cv.c, on every way through.
use striga2_pocs.Base.{
  ℕ, ◌+◌, ◌<◌, ◌≡◌, refl, ◌∙◌, inl, inr, ◌⊎◌, Bool, true, false, Option, none, some, List, [], ◌∷◌,
  ◌++◌, length, arith, ◌==◌, if◌then◌else◌, ℤ, pos, negsuc,
}
use striga2_pocs.Calls.{
  Call, Outcome, returns, aborts, mutex_lock, mutex_unlock, cond_signal, log, mutex_after,
  mutex_after-append,
}
use striga2_pocs.Greenev.Cmd.{Cmd}
use striga2_pocs.Greenev.CmdQCv.{
  CondCmdQ, cond_cmd_q_full, cond_cmd_q_put, cond_cmd_q_timed_put, cond_cmd_q_put_internal,
}
use striga2_pocs.Greenev.CmdQCv.Wait.{
  Wake, Waited, ready, failed, blocked, wait_while, timed_wait_while, Throughout, Throughout-first,
  Ends, wait_while-Ends, wait_while-ready, timed_wait_while-Ends,
}
use striga2_pocs.Greenev.CmdQCv.Indices.{
  Represents, Represents-indices_in, full_iff, put_internal-Represents,
}

-- A put into a queue with room neither waits nor fails, whatever else is given: it adds the command
-- at the end, wakes a consumer, and holds the mutex only meanwhile.
pub put-at_once :
    (this : CondCmdQ) (size : ℕ) (xs : List Cmd) (cmd_id arg : ℕ) (wakes : List (Wake CondCmdQ))
    → Represents this size xs
    → length xs + 1 < size
    → (this' : CondCmdQ) × (cond_cmd_q_put this cmd_id arg 0 wakes 0
        ≡ returns (some (this', true, mutex_lock ∷ cond_signal 1 ∷ mutex_unlock ∷ [])))
      × Represents this' size (xs ++ (record { id = cmd_id; arg = arg }) ∷ [])
unfolding cond_cmd_q_put
put-at_once this size xs cmd_id arg wakes r room = (
  (cond_cmd_q_put_internal this cmd_id arg).0,
  rw (Represents-indices_in r, wait_while-ready cond_cmd_q_full 0 wakes this open_) (refl),
  put_internal-Represents cmd_id arg r open_,
)
  where
    open_ : cond_cmd_q_full this ≡ false
    open_ = ground (arith, full_iff r)

-- The command is stored: it stands last in a queue that had room for it, and that had `P` before.
abbrev pub Stored : (CondCmdQ → Type 0) → ℕ → Cmd → CondCmdQ → Type 0
Stored P size c this =
    (before : CondCmdQ) × (xs : List Cmd) × P before
    × Represents before size xs
    × (length xs + 1 < size)
    × Represents this size (xs ++ c ∷ [])

-- How a put may end: still waiting, or returned with the mutex given back.
abbrev pub PutResult :
    (CondCmdQ → Type 0) → ℕ → Cmd → Outcome (Option (CondCmdQ × Bool × List Call)) → Type 0
PutResult P size c aborts = ⊥
PutResult P size c (returns none) = Unit
PutResult P size c (returns (some (this, done, calls))) =
    (mutex_after false calls ≡ some false)
    × ((done ≡ true) × Stored P size c this ⊎ (done ≡ false) × P this)

abbrev pub TimedPutResult :
    (CondCmdQ → Type 0) → ℕ → Cmd → Outcome (Option (CondCmdQ × ℤ × List Call)) → Type 0
TimedPutResult P size c aborts = ⊥
TimedPutResult P size c (returns none) = Unit
TimedPutResult P size c (returns (some (this, result, calls))) =
    (mutex_after false calls ≡ some false)
    × ((result ≡ pos 1) × Stored P size c this ⊎ ((result ≡ pos 0) ⊎ (result ≡ negsuc 0)) × P this)

-- What the queue is before the call and at each wake: one of `size` cells that holds some list.
abbrev pub Is : (CondCmdQ → Type 0) → ℕ → CondCmdQ → Type 0
Is P size this = P this × ((xs : List Cmd) × Represents this size xs)

module _ (P : CondCmdQ → Type 0) (size cmd_id arg : ℕ) where
  stored :
      (this : CondCmdQ)
      → Is P size this
      → cond_cmd_q_full this ≡ false
      → Stored P size
          (record { id = cmd_id; arg = arg })
          (cond_cmd_q_put_internal this cmd_id arg).0
  stored this (p, (xs, r)) h = (
    this,
    xs,
    p,
    r,
    ground (arith, full_iff r, r.cells.fits),
    put_internal-Represents cmd_id arg r h,
  )

  -- The mutex is locked before a wait loop and unlocked after what follows it.
  closed :
      (calls after : List Call)
      → mutex_after true calls ≡ some true
      → mutex_after true after ≡ some false
      → mutex_after false (mutex_lock ∷ (calls ++ after)) ≡ some false
  unfolding mutex_after
  closed calls after h e = mutex_after-append true true calls after h ∙ e

  put_finish :
      (o : Waited CondCmdQ)
      → Ends cond_cmd_q_full 0 (Is P size) o
      → PutResult P size
          (record { id = cmd_id; arg = arg })
          (elim o [
            | blocked ↦ returns none
            | failed err this' calls ↦
                returns (some (this', false, mutex_lock ∷ (calls ++ log ∷ mutex_unlock ∷ [])))
            | ready this' calls ↦
                let (this'', signal) = cond_cmd_q_put_internal this' cmd_id arg in
                returns (some (this'', true, mutex_lock ∷ (calls ++ (signal ++ mutex_unlock ∷ []))))
          ])
  unfolding mutex_after cond_cmd_q_put_internal
  put_finish (ready q calls) e = (closed calls _ e.2 refl, inl (refl, stored q e.0 e.1))
  put_finish (failed err q calls) e = (closed calls _ e.2 refl, inr (refl, e.0.0))
  put_finish blocked e = tt

  -- Whatever the other threads do while the producer waits, as long as they leave a queue of `size`
  -- cells with the property `P` at each wake: a put that returns true has added its command at the
  -- end of such a queue, at a moment when it had room, so that no command waiting is overwritten;
  -- one that returns false has left such a queue as it was. Both give the mutex back. No assert
  -- fails. (The calls that lock and unlock the mutex succeed.)
  pub put_ends :
      (this : CondCmdQ) (wakes : List (Wake CondCmdQ))
      → Throughout cond_cmd_q_full 0 (Is P size) wakes this
      → PutResult P size
          (record { id = cmd_id; arg = arg })
          (cond_cmd_q_put this cmd_id arg 0 wakes 0)
  unfolding cond_cmd_q_put
  put_ends this wakes t =
      rw (Represents-indices_in (Throughout-first cond_cmd_q_full 0 (Is P size) wakes this t).1.1) (
        put_finish (wait_while cond_cmd_q_full 0 wakes this)
          (wait_while-Ends cond_cmd_q_full 0 (Is P size) wakes this t))

  timed_put_finish :
      (etimedout : ℕ) (o : Waited CondCmdQ)
      → Ends cond_cmd_q_full 0 (Is P size) o
      → TimedPutResult P size
          (record { id = cmd_id; arg = arg })
          (elim o [
            | blocked ↦ returns none
            | failed err this' calls ↦ returns (
                some (
                  this',
                  (if err == etimedout then pos 0 else negsuc 0),
                  mutex_lock ∷ (calls ++ mutex_unlock ∷ []),
                ))
            | ready this' calls ↦
                let (this'', signal) = cond_cmd_q_put_internal this' cmd_id arg in
                returns
                  (some (this'', pos 1, mutex_lock ∷ (calls ++ (signal ++ mutex_unlock ∷ []))))
          ])
  unfolding mutex_after cond_cmd_q_put_internal
  timed_put_finish etimedout (ready q calls) e =
      (closed calls _ e.2 refl, inl (refl, stored q e.0 e.1))
  timed_put_finish etimedout (failed err q calls) e =
      (closed calls _ e.2 refl, inr (ground arith, e.0.0))
  timed_put_finish etimedout blocked e = tt

  -- Whatever the other threads do while the producer waits, as long as they leave a queue of `size`
  -- cells with the property `P` at each wake: a timed put that returns 1 has added its command at the
  -- end of such a queue, which had room; one that returns 0 or -1 has left such a queue as it was.
  -- All give the mutex back. No assert fails. (The calls that lock and unlock the mutex succeed.)
  pub timed_put_ends :
      (etimedout : ℕ) (this : CondCmdQ) (timeout_ms : ℕ) (wakes : List (Wake CondCmdQ))
      → Throughout cond_cmd_q_full 0 (Is P size) wakes this
      → TimedPutResult P size
          (record { id = cmd_id; arg = arg })
          (cond_cmd_q_timed_put etimedout this cmd_id arg timeout_ms 0 wakes 0)
  unfolding cond_cmd_q_timed_put
  timed_put_ends etimedout this timeout_ms wakes t =
      rw (Represents-indices_in (Throughout-first cond_cmd_q_full 0 (Is P size) wakes this t).1.1) (
        timed_put_finish etimedout (timed_wait_while cond_cmd_q_full 0 timeout_ms wakes _ this)
          (timed_wait_while-Ends cond_cmd_q_full 0 (Is P size) timeout_ms wakes _ this t))
