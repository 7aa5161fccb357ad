-- ===== src/Greenev/CmdQCv.antt =====
-- The command queue of greenev/cmdq_cv.c: a circular array whose producers and consumers wait on
-- condition variables, 0 for `q_not_full` and 1 for `q_not_empty`. What the pthread calls answer
-- are arguments, 0 for success; what other threads do while one waits is an argument too.
pub mod Timeout
pub mod Wait
pub mod Indices
pub mod Put
pub mod Get
pub mod Unlocked
pub mod Deadline
pub mod Refines
use striga2_pocs.Base.{
  ℕ, zero, suc, ◌+◌, ◌-◌, Bool, true, false, ◌&&◌, Option, none, some, List, [], ◌∷◌, ◌++◌,
  get_elem?, set, ltb, ◌==◌, if◌then◌else◌, u32, u32_sub, ℤ, pos, negsuc,
}
use striga2_pocs.Calls.{
  Call, mutex_init, mutex_destroy, mutex_lock, mutex_unlock, cond_init, cond_destroy, cond_signal,
  free, log, Outcome, returns, aborts,
}
use striga2_pocs.Greenev.Cmd.{Cmd}
use Timeout.{Timespec}
use Wait.{Wake, Waited, ready, failed, blocked, wait_while, timed_wait_while}

-- `struct cond_cmd_q`, less the mutex and the condition variables.
pub record CondCmdQ : Type 0 where
  pub q_size : ℕ
  pub q_head : ℕ
  pub q_tail : ℕ
  pub q : List Cmd

-- `err` are the answers of `pthread_mutex_init` and of the two calls of `pthread_cond_init`.
unfoldable pub cond_cmd_q_new :
    ℕ → Option (List Cmd) → ℕ → ℕ → ℕ → Outcome (Option CondCmdQ × List Call)
cond_cmd_q_new size memory err err₁ err₂ = if size == 0 then aborts else elim memory [
  | none ↦ returns (none, [])
  | some cells ↦
      if err == 0
      then (if err₁ == 0
          then (if err₂ == 0
              then returns (
                some (record { q_size = size; q_head = 0; q_tail = 0; q = cells }),
                mutex_init ∷ cond_init 0 ∷ cond_init 1 ∷ [],
              )
              else returns (
                none,
                mutex_init
                    ∷ cond_init 0
                    ∷ cond_init 1
                    ∷ log
                    ∷ cond_destroy 0
                    ∷ mutex_destroy
                    ∷ free
                    ∷ [],
              ))
          else returns (none, mutex_init ∷ cond_init 0 ∷ log ∷ mutex_destroy ∷ free ∷ []))
      else returns (none, mutex_init ∷ log ∷ free ∷ [])
]

abbrev log_if_failed : ℕ → List Call
log_if_failed err = if err == 0 then [] else log ∷ []

-- The answers are those of the three calls. The queue's memory is not given back.
pub cond_cmd_q_delete : CondCmdQ → ℕ → ℕ → ℕ → List Call
cond_cmd_q_delete this err err₁ err₂ =
    mutex_destroy
    ∷ (log_if_failed err
        ++ (cond_destroy 0 ∷ (log_if_failed err₁ ++ (cond_destroy 1 ∷ log_if_failed err₂))))

pub cond_cmd_q_full : CondCmdQ → Bool
cond_cmd_q_full this =
    if ltb 0 this.q_tail
    then this.q_tail == u32 (this.q_head + 1)
    else this.q_head == u32_sub this.q_size 1

pub cond_cmd_q_empty : CondCmdQ → Bool
cond_cmd_q_empty this = this.q_tail == this.q_head

pub cond_cmd_q_size : CondCmdQ → ℕ
cond_cmd_q_size this =
    if ltb this.q_head this.q_tail
    then (if this.q_tail == u32 (this.q_head + 1) then 1 else 0)
    else u32_sub this.q_head this.q_tail

abbrev pub step_index : ℕ → ℕ → ℕ
step_index size i = if u32 (i + 1) == size then 0 else u32 (i + 1)

pub cond_cmd_q_put_internal : CondCmdQ → ℕ → ℕ → CondCmdQ × List Call
cond_cmd_q_put_internal this cmd_id arg = (
  record this {
    q = set this.q this.q_head (record { id = cmd_id; arg = arg });
    q_head = step_index this.q_size this.q_head;
  },
  cond_signal 1 ∷ [],
)

-- The command is `none` only for a read outside the array.
pub cond_cmd_q_get_internal : CondCmdQ → CondCmdQ × Option Cmd × List Call
cond_cmd_q_get_internal this = (
  record this { q_tail = step_index this.q_size this.q_tail },
  get_elem? this.q this.q_tail,
  cond_signal 0 ∷ [],
)

-- The two asserts on the indices.
abbrev pub indices_in : CondCmdQ → Bool
indices_in this = ltb this.q_head this.q_size && ltb this.q_tail this.q_size

-- `returns none` is a thread that still waits after all of `wakes`. A failed `pthread_mutex_lock`
-- shows as `lock_err`, and takes nothing.
unfoldable pub cond_cmd_q_put :
    CondCmdQ
    → ℕ
    → ℕ
    → (lock_err : ℕ) → List (Wake CondCmdQ)
    → (unlock_err : ℕ) → Outcome (Option (CondCmdQ × Bool × List Call))
unfolding wait_while cond_cmd_q_full cond_cmd_q_put_internal
cond_cmd_q_put this cmd_id arg lock_err wakes unlock_err =
    if indices_in this
    then (if lock_err == 0
        then elim (wait_while cond_cmd_q_full 0 wakes this) [
          | blocked ↦ returns none
          | failed err this' calls ↦
              returns (some (this', false, mutex_lock ∷ (calls ++ log ∷ mutex_unlock ∷ [])))
          | ready this' calls ↦
              let (this'', signal) = cond_cmd_q_put_internal this' cmd_id arg in
              returns (
                some (
                  this'',
                  unlock_err == 0,
                  mutex_lock ∷ (calls ++ (signal ++ mutex_unlock ∷ log_if_failed unlock_err)),
                ))
        ]
        else returns (some (this, false, log ∷ [])))
    else aborts

-- `etimedout` is the constant `ETIMEDOUT` of the platform.
pub cond_cmd_q_timed_put :
    (etimedout : ℕ)
    → CondCmdQ
    → ℕ
    → ℕ
    → (timeout_ms : ℕ) → (lock_err : ℕ) → List (Wake CondCmdQ)
    → (unlock_err : ℕ) → Outcome (Option (CondCmdQ × ℤ × List Call))
unfolding timed_wait_while cond_cmd_q_full cond_cmd_q_put_internal
cond_cmd_q_timed_put etimedout this cmd_id arg timeout_ms lock_err wakes unlock_err =
    if indices_in this
    then (if lock_err == 0
        then elim (timed_wait_while cond_cmd_q_full 0 timeout_ms wakes unset this) [
          | blocked ↦ returns none
          | failed err this' calls ↦ returns (
              some (
                this',
                (if unlock_err == 0
                    then (if err == etimedout then pos 0 else negsuc 0)
                    else negsuc 0),
                mutex_lock ∷ (calls ++ mutex_unlock ∷ log_if_failed unlock_err),
              ))
          | ready this' calls ↦
              let (this'', signal) = cond_cmd_q_put_internal this' cmd_id arg in
              returns (
                some (
                  this'',
                  (if unlock_err == 0 then pos 1 else negsuc 0),
                  mutex_lock ∷ (calls ++ (signal ++ mutex_unlock ∷ log_if_failed unlock_err)),
                ))
        ]
        else returns (some (this, negsuc 0, log ∷ [])))
    else aborts
  where
    unset : Timespec
    unset = record { tv_sec = 0; tv_nsec = 0 }

-- The command is what is stored through `cmd_out`, `none` where nothing is.
pub cond_cmd_q_get :
    CondCmdQ
    → (lock_err : ℕ) → List (Wake CondCmdQ)
    → (unlock_err : ℕ) → Outcome (Option (CondCmdQ × Bool × Option Cmd × List Call))
unfolding wait_while cond_cmd_q_empty cond_cmd_q_get_internal
cond_cmd_q_get this lock_err wakes unlock_err =
    if indices_in this
    then (if lock_err == 0
        then elim (wait_while cond_cmd_q_empty 1 wakes this) [
          | blocked ↦ returns none
          | failed err this' calls ↦ returns (
              some (
                this',
                false,
                none,
                mutex_lock ∷ (calls ++ log ∷ mutex_unlock ∷ log_if_failed unlock_err),
              ))
          | ready this' calls ↦
              let (this'', cmd_out, signal) = cond_cmd_q_get_internal this' in
              returns (
                some (
                  this'',
                  unlock_err == 0,
                  cmd_out,
                  mutex_lock ∷ (calls ++ (signal ++ mutex_unlock ∷ log_if_failed unlock_err)),
                ))
        ]
        else returns (some (this, false, none, log ∷ [])))
    else aborts

pub cond_cmd_q_timed_get :
    (etimedout : ℕ)
    → CondCmdQ
    → (timeout_ms : ℕ) → (lock_err : ℕ) → List (Wake CondCmdQ)
    → (unlock_err : ℕ) → Outcome (Option (CondCmdQ × ℤ × Option Cmd × List Call))
unfolding timed_wait_while cond_cmd_q_empty cond_cmd_q_get_internal
cond_cmd_q_timed_get etimedout this timeout_ms lock_err wakes unlock_err =
    if indices_in this
    then (if lock_err == 0
        then elim (timed_wait_while cond_cmd_q_empty 1 timeout_ms wakes unset this) [
          | blocked ↦ returns none
          | failed err this' calls ↦ returns (
              some (
                this',
                (if unlock_err == 0
                    then (if err == etimedout then pos 0 else negsuc 0)
                    else negsuc 0),
                none,
                mutex_lock ∷ (calls ++ mutex_unlock ∷ log_if_failed unlock_err),
              ))
          | ready this' calls ↦
              let (this'', cmd_out, signal) = cond_cmd_q_get_internal this' in
              returns (
                some (
                  this'',
                  (if unlock_err == 0 then pos 1 else negsuc 0),
                  cmd_out,
                  mutex_lock ∷ (calls ++ (signal ++ mutex_unlock ∷ log_if_failed unlock_err)),
                ))
        ]
        else returns (some (this, negsuc 0, none, log ∷ [])))
    else aborts
  where
    unset : Timespec
    unset = record { tv_sec = 0; tv_nsec = 0 }
