-- ===== src/Greenev/PyApi/Next.antt =====
-- `py_geapi_py_thread_next_cmd` of greenev/pygeapi.c over the queue of greenev/cmdq_cv.c.
use striga2_pocs.Base.{
  ℕ, ◌≡◌, ap₂, inl, inr, ◌⊎◌, true, false, Option, none, some, List, [], ◌∷◌, ◌++◌, ℤ, pos, negsuc,
}
use striga2_pocs.Calls.{
  Call, Outcome, returns, aborts, gil_restore, gil_save, py_api, blocking_after,
  blocking_after-append,
}
use striga2_pocs.Greenev.Cmd.{Cmd}
use striga2_pocs.Greenev.CmdQCv.{CondCmdQ, cond_cmd_q_empty, cond_cmd_q_timed_get}
use striga2_pocs.Greenev.CmdQCv.Wait.{Wake, Throughout}
use striga2_pocs.Greenev.CmdQCv.Indices.{Represents}
use striga2_pocs.Greenev.CmdQCv.Put.{Is}
use striga2_pocs.Greenev.CmdQCv.Get.{Taken, TimedGetResult, timed_get_ends}
use striga2_pocs.Greenev.CmdQCv.Unlocked.{GetUnlocked, timed_get-unlocked}
use striga2_pocs.Greenev.App.{PyThread}
use striga2_pocs.Greenev.PyApi.{
  NextCmd, exception, timed_out, command, answer, py_geapi_py_thread_next_cmd,
}

-- The id of the oldest command of a queue that had `P`, and the queue without it.
abbrev pub Next : (CondCmdQ → Type 0) → ℕ → PyThread → NextCmd → Type 0
Next P size this next =
    (before : CondCmdQ) × (x : Cmd) × (xs : List Cmd) × P before
    × Represents before size (x ∷ xs)
    × (next ≡ command x.id)
    × Represents this.cmd_q size xs

-- How the call may end: still waiting, or returned with the interpreter lock held again, which was
-- not held at any lock of the mutex or wait on a condition variable.
abbrev pub NextResult :
    (CondCmdQ → Type 0) → ℕ → Outcome (Option (Option PyThread × NextCmd × List Call)) → Type 0
NextResult P size aborts = ⊥
NextResult P size (returns none) = Unit
NextResult P size (returns (some (none, next, calls))) = ⊥
NextResult P size (returns (some (some this, next, calls))) =
    (blocking_after true calls ≡ some true)
    × (Next P size this next ⊎ ((next ≡ timed_out) ⊎ (next ≡ exception)) × P this.cmd_q)

module _ (P : CondCmdQ → Type 0) (size : ℕ) where
  answered :
      (this : PyThread) (res : ℤ) (cmd : Option Cmd)
      → ((res ≡ pos 1) × Taken P size this.cmd_q cmd
          ⊎ ((res ≡ pos 0) ⊎ (res ≡ negsuc 0)) × (cmd ≡ none) × P this.cmd_q)
      → (Next P size this (answer res cmd)
          ⊎ ((answer res cmd ≡ timed_out) ⊎ (answer res cmd ≡ exception)) × P this.cmd_q)
  answered this res cmd (inl (one, (before, x, xs, p, r, first, rest))) =
      inl (before, x, xs, p, r, ap₂ answer one first, rest)
  answered this res cmd (inr (inl zero_, nothing, p)) = inr (inl (ap₂ answer zero_ nothing), p)
  answered this res cmd (inr (inr below, nothing, p)) = inr (inr (ap₂ answer below nothing), p)

  finish :
      (o : Outcome (Option (CondCmdQ × ℤ × Option Cmd × List Call)))
      → TimedGetResult P size o
      → GetUnlocked o
      → NextResult P size (elim o [
        | aborts ↦ aborts
        | returns none ↦ returns none
        | returns (some (cmd_q, res, cmd, calls)) ↦ returns (
            some (
              some (record { cmd_q = cmd_q }),
              answer res cmd,
              py_api ∷ py_api ∷ py_api ∷ gil_save ∷ (calls ++ gil_restore ∷ py_api ∷ []),
            ))
      ])
  unfolding blocking_after
  finish aborts r u = r
  finish (returns none) r u = tt
  finish (returns (some (cmd_q, res, cmd, calls))) r u = (
    blocking_after-append false false calls (gil_restore ∷ py_api ∷ []) u,
    answered (record { cmd_q = cmd_q }) res cmd r.1,
  )

  -- Python asks for the next command, while other threads do whatever they do, as long as they leave
  -- a queue of `size` cells with the property `P` at each wake. No assert fails, and if the call
  -- returns, it has locked the mutex and waited for a command only without the interpreter lock, has
  -- used the interpreter only with it, and holds it again. The id that it returns is that of the
  -- oldest command, which is then gone from the queue, and only that one; a call that returns `None`
  -- or raises an exception has taken nothing. (The arguments are right, and the calls that lock and
  -- unlock the mutex succeed.)
  pub next_cmd-takes :
      (etimedout : ℕ) (this : PyThread) (timeout_ms : ℕ) (wakes : List (Wake CondCmdQ))
      → Throughout cond_cmd_q_empty 1 (Is P size) wakes this.cmd_q
      → NextResult P size
          (py_geapi_py_thread_next_cmd true true (some this) etimedout timeout_ms 0 wakes 0)
  unfolding py_geapi_py_thread_next_cmd
  next_cmd-takes etimedout this timeout_ms wakes t =
      finish (cond_cmd_q_timed_get etimedout this.cmd_q timeout_ms 0 wakes 0)
        (timed_get_ends P size etimedout this.cmd_q timeout_ms wakes t)
        (timed_get-unlocked etimedout this.cmd_q timeout_ms 0 wakes 0)
