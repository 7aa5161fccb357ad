-- ===== src/Singlev/CmdQ.antt =====
-- The command queue of singlev/src/cmdq.c, from which that of pyglev was taken over.
pub mod Agrees
pub mod Laws
use striga2_pocs.Base.{
  ℕ, ◌+◌, Bool, true, false, Option, none, some, List, [], ◌∷◌, ◌++◌, get_elem?, set, ltb, ◌==◌,
  if◌then◌else◌, ℤ, negsuc, u32, u32_sub, to_int,
}
use striga2_pocs.Calls.{
  Call, mutex_init, mutex_destroy, mutex_lock, mutex_unlock, async_init, async_start, async_stop,
  async_send, loop_ref, loop_unref, free, log, Outcome, returns, aborts,
}

-- `struct cmd`. The field `data` is a pointer, here `content`.
pub record Cmd : Type 0 where
  pub id : ℕ
  pub content : ℕ

-- `struct cmd_q`, less the mutex and the watcher. `owner` is the field `data`.
pub record CmdQ : Type 0 where
  pub size : ℕ
  pub head : ℕ
  pub tail : ℕ
  pub owner : Option ℕ
  pub queue : List Cmd

-- `memory` is what `malloc` returned: `NULL`, or the cells, with whatever they hold.
unfoldable pub cmd_q_new : ℕ → Option (List Cmd) → Outcome (Option CmdQ × List Call)
cmd_q_new size memory = if size == 0 then aborts else elim memory [
  | none ↦ returns (none, [])
  | some cells ↦ returns (
    some (record { size = size; head = 0; tail = 0; owner = none; queue = cells }),
    mutex_init ∷ async_init ∷ [],
  )
]

-- `active` is what `ev_is_active` says of the watcher, here and below.
unfoldable pub cmd_q_delete : CmdQ → Bool → Outcome (List Call)
cmd_q_delete q active =
    if active
    then aborts
    else returns (mutex_destroy ∷ ((if q.head == q.tail then [] else log ∷ []) ++ free ∷ []))

unfoldable pub cmd_q_start : CmdQ → List Call
cmd_q_start q = async_start ∷ loop_unref ∷ []

unfoldable pub cmd_q_stop : CmdQ → List Call
cmd_q_stop q = loop_ref ∷ async_stop ∷ []

-- An index stepped, and put back to 0 at the end.
abbrev pub step_index : ℕ → ℕ → ℕ
step_index size i = if u32 (i + 1) == size then 0 else u32 (i + 1)

unfoldable pub cmd_q_put : CmdQ → Bool → ℕ → ℕ → CmdQ × Bool × List Call
cmd_q_put q active cmd_id content =
    if active
    then (if head' == q.tail then (q, false, mutex_lock ∷ mutex_unlock ∷ []) else (
      record q { head = head'; queue = set q.queue q.head new_cmd },
      true,
      mutex_lock ∷ mutex_unlock ∷ async_send ∷ [],
    ))
    else (q, false, [])
  where
    head' : ℕ
    head' = step_index q.size q.head

    new_cmd : Cmd
    new_cmd = record { id = cmd_id; content = content }

-- The `int` returned, the queue after, what is stored through `out_cmd`, and the calls.
unfoldable pub cmd_q_get : CmdQ → CmdQ × ℤ × Option Cmd × List Call
cmd_q_get q = if q.head == q.tail then (q, negsuc 0, none, mutex_lock ∷ mutex_unlock ∷ []) else (
  record q { tail = tail' },
  to_int (if ltb q.head tail' then u32 (q.head + u32_sub q.size tail') else u32_sub q.head tail'),
  get_elem? q.queue q.tail,
  mutex_lock ∷ mutex_unlock ∷ [],
)
  where
    tail' : ℕ
    tail' = step_index q.size q.tail
