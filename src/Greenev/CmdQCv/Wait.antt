-- ===== src/Greenev/CmdQCv/Wait.antt =====
-- The wait loops of greenev/cmdq_cv.c, over any queue and any condition to wait for.
use striga2_pocs.Base.{
  ℕ, ◌≡◌, refl, ◌∙◌, inl, inr, Bool, true, false, List, [], ◌∷◌, ◌==◌, if◌then◌else◌, Bool-cases,
  some,
}
use striga2_pocs.Calls.{Call, cond_wait, cond_timedwait, mutex_after}
use striga2_pocs.Greenev.CmdQCv.Timeout.{Timespec, Timeval, cond_cmd_q_getabstimeout}

-- The return of one wait: its answer, the queue as the other threads have left it, and, for a timed
-- wait, what `gettimeofday` reads if it is called before it.
pub record Wake (Q : Type 0) : Type 0 where
  pub err : ℕ
  pub after : Q
  pub now : Timeval

-- How a wait loop ends: the condition is met, a wait failed with `err`, or the thread still waits
-- after all the wakes that there are.
pub data Waited (Q : Type 0) : Type 0 where
  ready : Q → List Call → Waited Q
  failed : ℕ → Q → List Call → Waited Q
  blocked : Waited Q

module _ {Q : Type 0} where
  abbrev pub calling : Call → Waited Q → Waited Q
  calling c (ready q cs) = ready q (c ∷ cs)
  calling c (failed err q cs) = failed err q (c ∷ cs)
  calling c blocked = blocked

  module _ (waiting : Q → Bool) (cond : ℕ) where
    -- `while (waiting(this)) { err = pthread_cond_wait(cond, mutex); if (err) ... }`
    unfoldable pub wait_while : List (Wake Q) → Q → Waited Q
    wait_while [] q = if waiting q then blocked else ready q []
    wait_while (w ∷ ws) q =
        let rest = calling (cond_wait cond) (wait_while ws w.after) in
        if waiting q
        then (if w.err == 0 then rest else failed w.err w.after (cond_wait cond ∷ []))
        else ready q []

    -- The deadline is worked out in the first turn, where `ts->tv_sec` is still 0.
    abbrev pub deadline : ℕ → Timeval → Timespec → Timespec
    deadline timeout_ms now ts =
        if ts.tv_sec == 0 then cond_cmd_q_getabstimeout now timeout_ms else ts

    unfoldable pub timed_wait_while : ℕ → List (Wake Q) → Timespec → Q → Waited Q
    timed_wait_while timeout_ms [] ts q = if waiting q then blocked else ready q []
    timed_wait_while timeout_ms (w ∷ ws) ts q =
        let ts' = deadline timeout_ms w.now ts in
        let wait = cond_timedwait cond ts'.tv_sec ts'.tv_nsec in
        let rest = calling wait (timed_wait_while timeout_ms ws ts' w.after) in
        if waiting q
        then (if w.err == 0 then rest else failed w.err w.after (wait ∷ []))
        else ready q []

    -- Where the condition is met there is no wait.
    pub wait_while-ready :
        (ws : List (Wake Q)) (q : Q) → waiting q ≡ false → wait_while ws q ≡ ready q []
    unfolding wait_while
    wait_while-ready [] q e = rw e
    wait_while-ready (w ∷ ws) q e = rw e

    pub timed_wait_while-ready :
        (timeout_ms : ℕ) (ws : List (Wake Q)) (ts : Timespec) (q : Q)
        → waiting q ≡ false
        → timed_wait_while timeout_ms ws ts q ≡ ready q []
    unfolding timed_wait_while
    timed_wait_while-ready timeout_ms [] ts q e = rw e
    timed_wait_while-ready timeout_ms (w ∷ ws) ts q e = rw e

    -- What holds of the queue when a loop begins, and of what the other threads leave at each wake.
    abbrev pub Throughout {ℓ} : (Q → Type ℓ) → List (Wake Q) → Q → Type ℓ
    Throughout P [] q = P q
    Throughout P (w ∷ ws) q = P q × Throughout P ws w.after

    pub Throughout-first {ℓ} :
        (P : Q → Type ℓ) (ws : List (Wake Q)) (q : Q) → Throughout P ws q → P q
    Throughout-first P [] q t = t
    Throughout-first P (w ∷ ws) q t = t.0

    -- What holds at the end of a loop: the property, and the condition unless a wait failed. The
    -- calls made neither give the mutex up for good nor take it again.
    abbrev pub Ends {ℓ} : (Q → Type ℓ) → Waited Q → Type ℓ
    Ends P (ready q cs) = P q × (waiting q ≡ false) × (mutex_after true cs ≡ some true)
    Ends P (failed err q cs) = P q × ((err == 0) ≡ false) × (mutex_after true cs ≡ some true)
    Ends P blocked = Unit

    calling-Ends {ℓ} :
        (P : Q → Type ℓ) (c : Call) (o : Waited Q)
        → ((cs : List Call) → mutex_after true (c ∷ cs) ≡ mutex_after true cs)
        → Ends P o
        → Ends P (calling c o)
    calling-Ends P c (ready q cs) h e = (e.0, e.1, h cs ∙ e.2)
    calling-Ends P c (failed err q cs) h e = (e.0, e.1, h cs ∙ e.2)
    calling-Ends P c blocked h e = tt

    pub wait_while-Ends {ℓ} :
        (P : Q → Type ℓ) (ws : List (Wake Q)) (q : Q) → Throughout P ws q → Ends P (wait_while ws q)
    unfolding wait_while mutex_after
    wait_while-Ends P [] q t = elim (Bool-cases (waiting q)) [
      | inl e ↦ rw e tt
      | inr e ↦ rw e (t, e, refl)
    ]
    wait_while-Ends P (w ∷ ws) q t = elim (Bool-cases (waiting q)) [
      | inr e ↦ rw e (t.0, e, refl)
      | inl e ↦ elim (Bool-cases (w.err == 0)) [
        | inl z ↦
            rw (e, z)
              (calling-Ends P (cond_wait cond) (wait_while ws w.after) (λ cs. refl)
                (wait_while-Ends P ws w.after t.1))
        | inr z ↦ rw (e, z) (Throughout-first P ws w.after t.1, z, refl)
      ]
    ]

    pub timed_wait_while-Ends {ℓ} :
        (P : Q → Type ℓ) (timeout_ms : ℕ) (ws : List (Wake Q)) (ts : Timespec) (q : Q)
        → Throughout P ws q
        → Ends P (timed_wait_while timeout_ms ws ts q)
    unfolding timed_wait_while mutex_after
    timed_wait_while-Ends P timeout_ms [] ts q t = elim (Bool-cases (waiting q)) [
      | inl e ↦ rw e tt
      | inr e ↦ rw e (t, e, refl)
    ]
    timed_wait_while-Ends P timeout_ms (w ∷ ws) ts q t = elim (Bool-cases (waiting q)) [
      | inr e ↦ rw e (t.0, e, refl)
      | inl e ↦ elim (Bool-cases (w.err == 0)) [
        | inl z ↦
            let ts' = deadline timeout_ms w.now ts in
            rw (e, z)
              (calling-Ends P (cond_timedwait cond ts'.tv_sec ts'.tv_nsec)
                (timed_wait_while timeout_ms ws ts' w.after) (λ cs. refl)
                (timed_wait_while-Ends P timeout_ms ws ts' w.after t.1))
        | inr z ↦ rw (e, z) (Throughout-first P ws w.after t.1, z, refl)
      ]
    ]
