-- ===== src/Greenev/CmdQCv/Timeout.antt =====
-- `_cond_cmd_q_getabstimeout` of greenev/cmdq_cv.c: the moment at which a timed wait gives up.
use striga2_pocs.Base.{ℕ, ◌+◌, ◌*◌, ◌/◌, ◌%◌, ◌<◌, ◌≡◌, arith, ltb, if◌then◌else◌, u32}

-- `struct timespec`
pub record Timespec : Type 0 where
  pub tv_sec : ℕ
  pub tv_nsec : ℕ

-- `struct timeval`, as `gettimeofday` fills it in.
pub record Timeval : Type 0 where
  pub tv_sec : ℕ
  pub tv_usec : ℕ

-- The product with `timeout_ms` is one of `unsigned int`; the fields of `ts` are 64 bits wide, and
-- do not overflow before the year 292 billion.
unfoldable pub cond_cmd_q_getabstimeout : Timeval → ℕ → Timespec
cond_cmd_q_getabstimeout now timeout_ms =
    if ltb 999_999_999 tv_nsec
    then record { tv_sec = tv_sec + 1; tv_nsec = tv_nsec % 1_000_000_000 }
    else record { tv_sec = tv_sec; tv_nsec = tv_nsec }
  where
    tv_sec : ℕ
    tv_sec = now.tv_sec + timeout_ms / 1000

    tv_nsec : ℕ
    tv_nsec = now.tv_usec * 1000 + u32 (timeout_ms % 1000 * 1_000_000)

abbrev pub nanoseconds : Timespec → ℕ
nanoseconds ts = ts.tv_sec * 1_000_000_000 + ts.tv_nsec

-- The moment lies exactly `timeout_ms` milliseconds after `now`, and is in the normal form that
-- `pthread_cond_timedwait` asks for: fewer than 10 ^ 9 nanoseconds beside the seconds. `now` has
-- fewer than 10 ^ 6 microseconds.
pub getabstimeout-exact :
    (now : Timeval) (timeout_ms : ℕ)
    → now.tv_usec < 1_000_000
    → (nanoseconds (cond_cmd_q_getabstimeout now timeout_ms)
        ≡ now.tv_sec * 1_000_000_000 + now.tv_usec * 1000 + timeout_ms * 1_000_000)
      × ((cond_cmd_q_getabstimeout now timeout_ms).tv_nsec < 1_000_000_000)
unfolding cond_cmd_q_getabstimeout
getabstimeout-exact now timeout_ms h = ground arith
