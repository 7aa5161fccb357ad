-- ===== src/Pyglev/CmdQ.antt =====
-- The command queue of pyglev/pyglev/core/cmdq.c: a circular array behind a mutex, and a libev
-- `ev_async` watcher that wakes the consumer.
pub mod Laws
pub mod Refines
use striga2_pocs.Base.{
  ℕ, ◌+◌, ◌-◌, Bool, true, false, Option, none, some, List, [], ◌∷◌, get_elem?, set, ltb, ◌==◌,
  if◌then◌else◌, ℤ, negsuc, u32, u32_sub, to_int,
}
use striga2_pocs.Calls.{
  Call, mutex_init, mutex_destroy, mutex_lock, mutex_unlock, async_init, async_start, async_stop,
  async_send, loop_ref, loop_unref, free, Outcome, returns, aborts,
}

-- `struct cmd`: a command's id, and the object that it is about.
pub record Cmd : Type 0 where
  pub id : ℕ
  pub subject : ℕ

-- `struct cmd_q`. The mutex and the watcher are known by the calls on them. `owner` is the field
-- `data`; the flexible array `queue` is a list of `size` cells.
pub record CmdQ : Type 0 where
  pub size : ℕ
  pub head : ℕ
  pub tail : ℕ
  pub owner : Option ℕ
  pub queue : List Cmd

-- `memory` is what `malloc` returned: `NULL`, or the cells, with whatever they hold.
unfoldable pub cmd_q_new : ℕ → Option (List Cmd) → Outcome (Option CmdQ × List Call)
cmd_q_new size memory = if size == 0 then aborts else elim memory [
  | none ↦ returns (none, [])
  | some cells ↦ returns (
    some (record { size = size; head = 0; tail = 0; owner = none; queue = cells }),
    mutex_init ∷ async_init ∷ [],
  )
]

-- `active` is what `ev_is_active` says of the watcher, here and below.
pub cmd_q_delete : CmdQ → Bool → Outcome (List Call)
cmd_q_delete q active = if active then aborts else returns (mutex_destroy ∷ free ∷ [])

pub cmd_q_start : CmdQ → List Call
cmd_q_start q = async_start ∷ loop_unref ∷ []

pub cmd_q_stop : CmdQ → List Call
cmd_q_stop q = loop_ref ∷ async_stop ∷ []

-- `this->head += 1; if (this->head == this->size) this->head = 0;`, and so for `tail`.
abbrev pub step_index : ℕ → ℕ → ℕ
step_index size i = if u32 (i + 1) == size then 0 else u32 (i + 1)

unfoldable pub cmd_q_put : CmdQ → Bool → ℕ → ℕ → CmdQ × Bool × List Call
cmd_q_put q active cmd_id subject =
    if active
    then (if head' == q.tail then (q, false, mutex_lock ∷ mutex_unlock ∷ []) else (
      record q { head = head'; queue = set q.queue q.head new_cmd },
      true,
      mutex_lock ∷ mutex_unlock ∷ async_send ∷ [],
    ))
    else (q, false, [])
  where
    head' : ℕ
    head' = step_index q.size q.head

    new_cmd : Cmd
    new_cmd = record { id = cmd_id; subject = subject }

-- The `int` returned, the queue after, what is stored through `out_cmd`, and the calls.
unfoldable pub cmd_q_get : CmdQ → CmdQ × ℤ × Option Cmd × List Call
cmd_q_get q = if q.head == q.tail then (q, negsuc 0, none, mutex_lock ∷ mutex_unlock ∷ []) else (
  record q { tail = tail' },
  to_int (if ltb q.head tail' then u32 (q.head + u32_sub q.size tail') else u32_sub q.head tail'),
  get_elem? q.queue q.tail,
  mutex_lock ∷ mutex_unlock ∷ [],
)
  where
    tail' : ℕ
    tail' = step_index q.size q.tail
