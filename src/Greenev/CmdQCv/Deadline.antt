-- ===== src/Greenev/CmdQCv/Deadline.antt =====
-- The timed wait loops of greenev/cmdq_cv.c: however often a thread is woken, it gives up at one
-- moment, the one that was worked out before its first wait.
use striga2_pocs.Base.{
  ℕ, zero, suc, ◌+◌, ◌*◌, ◌<◌, ◌≡◌, refl, ap, inl, inr, Bool, false, List, [], ◌∷◌, length, arith,
  ◌==◌, Bool-cases,
}
use striga2_pocs.Calls.{Call, cond_timedwait}
use striga2_pocs.Greenev.CmdQCv.Timeout.{
  Timespec, Timeval, nanoseconds, cond_cmd_q_getabstimeout, getabstimeout-exact,
}
use striga2_pocs.Greenev.CmdQCv.Wait.{
  Wake, Waited, ready, failed, blocked, calling, timed_wait_while,
}

-- The calls of a wait loop that has ended.
abbrev pub calls_of : {Q : Type 0} → Waited Q → List Call
calls_of (ready q calls) = calls
calls_of (failed err q calls) = calls
calls_of blocked = []

abbrev pub repeated : ℕ → Call → List Call
repeated zero c = []
repeated (suc n) c = c ∷ repeated n c

calling-repeated :
    {Q : Type 0} (c : Call) (o : Waited Q)
    → calls_of o ≡ repeated (length (calls_of o)) c
    → calls_of (calling c o) ≡ repeated (length (calls_of (calling c o))) c
calling-repeated c (ready q calls) e = ap (◌∷◌ c) e
calling-repeated c (failed err q calls) e = ap (◌∷◌ c) e
calling-repeated c blocked e = refl

-- The moment is not one of the first second.
later_than :
    (now : Timeval) (timeout_ms : ℕ)
    → 0 < now.tv_sec
    → 0 < (cond_cmd_q_getabstimeout now timeout_ms).tv_sec
unfolding cond_cmd_q_getabstimeout
later_than now timeout_ms h = ground arith

module _ {Q : Type 0} (waiting : Q → Bool) (cond timeout_ms : ℕ) where
  -- Once the moment is known, it is that of every wait.
  known_deadline :
      (ts : Timespec) (ws : List (Wake Q)) (q : Q)
      → 0 < ts.tv_sec
      → let calls = calls_of (timed_wait_while waiting cond timeout_ms ws ts q) in
        calls ≡ repeated (length calls) (cond_timedwait cond ts.tv_sec ts.tv_nsec)
  unfolding timed_wait_while
  known_deadline ts [] q h = elim (Bool-cases (waiting q)) [ inl e ↦ rw e refl | inr e ↦ rw e refl ]
  known_deadline ts (w ∷ ws) q h =
      let known : (ts.tv_sec == 0) ≡ false = ground arith in
      elim (Bool-cases (waiting q)) [
        | inr e ↦ rw e refl
        | inl e ↦ elim (Bool-cases (w.err == 0)) [
          | inr z ↦ rw (e, z, known) refl
          | inl z ↦
              rw (e, z, known)
                (calling-repeated (cond_timedwait cond ts.tv_sec ts.tv_nsec)
                  (timed_wait_while waiting cond timeout_ms ws ts w.after)
                  (known_deadline ts ws w.after h))
        ]
      ]

  -- All waits of one timed put or get, if it waits at all, name one moment, that is `timeout_ms`
  -- milliseconds after the time read before the first of them, in whatever order and however often
  -- the thread is woken, and whatever the clock says later. (The clock is past its first second.)
  pub one_deadline :
      (w : Wake Q) (ws : List (Wake Q)) (q : Q)
      → 0 < w.now.tv_sec
      → w.now.tv_usec < 1_000_000
      → let ts = cond_cmd_q_getabstimeout w.now timeout_ms in
        let calls = calls_of (
          timed_wait_while waiting cond timeout_ms
            (w ∷ ws)
            (record { tv_sec = 0; tv_nsec = 0 })
            q) in
        (calls ≡ repeated (length calls) (cond_timedwait cond ts.tv_sec ts.tv_nsec))
        × (nanoseconds ts
            ≡ w.now.tv_sec * 1_000_000_000 + w.now.tv_usec * 1000 + timeout_ms * 1_000_000)
  unfolding timed_wait_while
  one_deadline w ws q h u =
      let ts = cond_cmd_q_getabstimeout w.now timeout_ms in
      let (exact, _) = getabstimeout-exact w.now timeout_ms u in
      let wait = cond_timedwait cond ts.tv_sec ts.tv_nsec in
      (
        elim (Bool-cases (waiting q)) [
          | inr e ↦ rw e refl
          | inl e ↦ elim (Bool-cases (w.err == 0)) [
            | inr z ↦ rw (e, z) refl
            | inl z ↦
                rw (e, z)
                  (calling-repeated wait (timed_wait_while waiting cond timeout_ms ws ts w.after)
                    (known_deadline ts ws w.after (later_than w.now timeout_ms h)))
          ]
        ],
        exact,
      )
