-- ===== src/Greenev/CmdQCv/Unlocked.antt =====
-- The queue of greenev/cmdq_cv.c does not touch the interpreter, so that a thread may wait on it
-- without the interpreter lock.
use striga2_pocs.Base.{
  ℕ, ◌≡◌, refl, ◌∙◌, inl, inr, Bool, false, Option, none, some, List, [], ◌∷◌, ◌++◌, ◌==◌,
  if◌then◌else◌, Bool-cases, ℤ, pos, negsuc, arith,
}
use striga2_pocs.Calls.{
  Call, Outcome, returns, aborts, cond_timedwait, cond_signal, mutex_lock, mutex_unlock, log,
  blocking_after, blocking_after-append,
}
use striga2_pocs.Greenev.Cmd.{Cmd}
use striga2_pocs.Greenev.CmdQCv.{
  CondCmdQ, cond_cmd_q_empty, cond_cmd_q_timed_get, cond_cmd_q_get_internal, indices_in,
}
use striga2_pocs.Greenev.CmdQCv.Timeout.{Timespec}
use striga2_pocs.Greenev.CmdQCv.Wait.{
  Wake, Waited, ready, failed, blocked, timed_wait_while, deadline, calling,
}

abbrev WaitingUnlocked : {Q : Type 0} → Waited Q → Type 0
WaitingUnlocked (ready q calls) = blocking_after false calls ≡ some false
WaitingUnlocked (failed err q calls) = blocking_after false calls ≡ some false
WaitingUnlocked blocked = Unit

calling-unlocked :
    {Q : Type 0} (cond s n : ℕ) (o : Waited Q)
    → WaitingUnlocked o
    → WaitingUnlocked (calling (cond_timedwait cond s n) o)
unfolding blocking_after
calling-unlocked cond s n (ready q calls) h = h
calling-unlocked cond s n (failed err q calls) h = h
calling-unlocked cond s n blocked h = tt

timed_wait_while-unlocked :
    {Q : Type 0} (waiting : Q → Bool) (cond timeout_ms : ℕ) (ws : List (Wake Q)) (ts : Timespec)
    (q : Q)
    → WaitingUnlocked (timed_wait_while waiting cond timeout_ms ws ts q)
unfolding timed_wait_while blocking_after
timed_wait_while-unlocked waiting cond timeout_ms [] ts q = elim (Bool-cases (waiting q)) [
  | inl e ↦ rw e tt
  | inr e ↦ rw e refl
]
timed_wait_while-unlocked waiting cond timeout_ms (w ∷ ws) ts q = elim (Bool-cases (waiting q)) [
  | inr e ↦ rw e refl
  | inl e ↦ elim (Bool-cases (w.err == 0)) [
    | inr z ↦ rw (e, z) refl
    | inl z ↦
        let ts' = deadline waiting cond timeout_ms w.now ts in
        rw (e, z)
          (calling-unlocked cond ts'.tv_sec ts'.tv_nsec
            (timed_wait_while waiting cond timeout_ms ws ts' w.after)
            (timed_wait_while-unlocked waiting cond timeout_ms ws ts' w.after))
  ]
]

-- What is said of a timed get that returns.
abbrev pub GetUnlocked : Outcome (Option (CondCmdQ × ℤ × Option Cmd × List Call)) → Type 0
GetUnlocked aborts = Unit
GetUnlocked (returns none) = Unit
GetUnlocked (returns (some (this, result, cmd_out, calls))) =
    blocking_after false calls ≡ some false

around :
    (calls last : List Call)
    → blocking_after false calls ≡ some false
    → blocking_after false last ≡ some false
    → blocking_after false (mutex_lock ∷ (calls ++ last)) ≡ some false
unfolding blocking_after
around calls last h e = blocking_after-append false false calls last h ∙ e

unlocking :
    (err : ℕ)
    → blocking_after false (mutex_unlock ∷ (if err == 0 then [] else log ∷ [])) ≡ some false
unfolding blocking_after
unlocking err = ground arith

get_finish :
    (etimedout unlock_err : ℕ) (o : Waited CondCmdQ)
    → WaitingUnlocked o
    → GetUnlocked (elim o [
      | blocked ↦ returns none
      | failed err this' calls ↦ returns (
          some (
            this',
            (if unlock_err == 0 then (if err == etimedout then pos 0 else negsuc 0) else negsuc 0),
            none,
            mutex_lock ∷ (calls ++ mutex_unlock ∷ (if unlock_err == 0 then [] else log ∷ [])),
          ))
      | ready this' calls ↦
          let (this'', cmd_out, signal) = cond_cmd_q_get_internal this' in
          returns (
            some (
              this'',
              (if unlock_err == 0 then pos 1 else negsuc 0),
              cmd_out,
              mutex_lock
                  ∷ (calls
                      ++ (signal ++ mutex_unlock ∷ (if unlock_err == 0 then [] else log ∷ []))),
            ))
    ])
unfolding cond_cmd_q_get_internal blocking_after
get_finish etimedout unlock_err (ready q calls) h =
    around calls (cond_signal 0 ∷ mutex_unlock ∷ (if unlock_err == 0 then [] else log ∷ [])) h
      (unlocking unlock_err)
get_finish etimedout unlock_err (failed err q calls) h =
    around calls (mutex_unlock ∷ (if unlock_err == 0 then [] else log ∷ [])) h
      (unlocking unlock_err)
get_finish etimedout unlock_err blocked h = tt

-- A timed get that returns has not used the interpreter.
pub timed_get-unlocked :
    (etimedout : ℕ) (this : CondCmdQ) (timeout_ms lock_err : ℕ) (wakes : List (Wake CondCmdQ))
    (unlock_err : ℕ)
    → GetUnlocked (cond_cmd_q_timed_get etimedout this timeout_ms lock_err wakes unlock_err)
unfolding cond_cmd_q_timed_get blocking_after
timed_get-unlocked etimedout this timeout_ms lock_err wakes unlock_err =
    elim (Bool-cases (indices_in this)) [
      | inr e ↦ rw e tt
      | inl e ↦ elim (Bool-cases (lock_err == 0)) [
        | inr z ↦ rw (e, z) refl
        | inl z ↦
            rw (e, z)
              (get_finish etimedout unlock_err
                (timed_wait_while cond_cmd_q_empty 1 timeout_ms wakes _ this)
                (timed_wait_while-unlocked cond_cmd_q_empty 1 timeout_ms wakes _ this))
      ]
    ]
