-- ===== src/Greenev/CmdQEv/Laws.antt =====
-- What the operations of greenev/cmdq_ev.c do to the list of the commands held.
use striga2_pocs.Base.{
  ℕ, ◌+◌, ◌^◌, ◌<◌, ◌≤◌, ◌≡◌, refl, subst, inl, inr, Bool, true, false, none, some, List, [], ◌∷◌,
  ◌++◌, length, arith, ==-cases,
}
use striga2_pocs.Calls.{
  is_keeping, is_letting_go, is_io_start, is_io_stop, is_new, is_decref, gil_after, count, is_log,
  mutex_lock, mutex_unlock, mutex_init, async_init, async_send, returns, Descriptors, opens, closes,
}
use striga2_pocs.Ring.{
  Holds, next, Holds-empty, Holds-push, Holds-pop, Holds-full, Holds-room, Holds-head_in, Holds-ne,
}
use striga2_pocs.Greenev.Cmd.{Cmd}
use striga2_pocs.Greenev.CmdQEv.{
  WatcherCmdQ, watcher_cmd_q_new, watcher_cmd_q_put, take_cmd, step_index,
}

-- The queue holds the commands `xs`, oldest first, in cells that an `unsigned int` can count.
pub record Represents (this : WatcherCmdQ) (xs : List Cmd) : Type 0 where
  pub small : this.q_size < 2 ^ 32
  pub cells : Holds this.q this.q_size this.q_head this.q_tail xs

step_index-eq-next : (size i : ℕ) → size < 2 ^ 32 → i < size → step_index size i ≡ next size i
step_index-eq-next size i s h = ground arith

-- A queue of at least one cell is made empty, whatever the memory held.
pub new-Represents :
    (size callbackarg : ℕ) (cells : List Cmd)
    → 0 < size
    → size < 2 ^ 32
    → length cells ≡ size
    → (this : WatcherCmdQ) × (watcher_cmd_q_new size callbackarg (some cells)
        ≡ returns (some this, mutex_init ∷ async_init ∷ []))
      × (this.q_size ≡ size)
      × Represents this []
unfolding watcher_cmd_q_new
new-Represents size callbackarg cells h s e = (
  record { q_size = size; q_head = 0; q_tail = 0; callbackarg = callbackarg; q = cells },
  ground arith,
  refl,
  record {
    small = s;
    cells = subst (λ n. Holds cells n 0 0 []) e (Holds-empty cells (omega arith));
  },
)

pub put_accepts :
    (this : WatcherCmdQ) (xs : List Cmd) (c : Cmd)
    → Represents this xs
    → length xs + 1 < this.q_size
    → ((watcher_cmd_q_put this c.id c.arg).1 ≡ true)
      × ((watcher_cmd_q_put this c.id c.arg).2 ≡ mutex_lock ∷ mutex_unlock ∷ async_send ∷ [])
      × ((watcher_cmd_q_put this c.id c.arg).0.q_size ≡ this.q_size)
      × Represents (watcher_cmd_q_put this c.id c.arg).0 (xs ++ c ∷ [])
unfolding watcher_cmd_q_put
put_accepts this xs c r room =
    let e = step_index-eq-next this.q_size this.q_head r.small (Holds-head_in r.cells) in
    elim (==-cases (next this.q_size this.q_head) this.q_tail) [
      | inl (t, p) ↦ absurd (omega (arith, Holds-full r.cells p))
      | inr (t, p) ↦
          rw (e, t) (refl, refl, refl, record { small = r.small; cells = Holds-push c r.cells p })
    ]

pub put_refuses :
    (this : WatcherCmdQ) (xs : List Cmd) (c : Cmd)
    → Represents this xs
    → this.q_size ≤ length xs + 1
    → watcher_cmd_q_put this c.id c.arg ≡ (this, false, mutex_lock ∷ mutex_unlock ∷ [])
unfolding watcher_cmd_q_put
put_refuses this xs c r full =
    let e = step_index-eq-next this.q_size this.q_head r.small (Holds-head_in r.cells) in
    elim (==-cases (next this.q_size this.q_head) this.q_tail) [
      | inl (t, p) ↦ rw (e, t)
      | inr (t, p) ↦ absurd (omega (arith, Holds-room r.cells p))
    ]

pub take_nothing : (this : WatcherCmdQ) → Represents this [] → take_cmd this ≡ (this, none)
unfolding take_cmd
take_nothing this r = elim (==-cases this.q_head this.q_tail) [
  | inl (t, p) ↦ rw t
  | inr (t, p) ↦ absurd (p (ground (arith, r.cells.meets, r.cells.tail_in)))
]

pub take_oldest :
    (this : WatcherCmdQ) (x : Cmd) (xs : List Cmd)
    → Represents this (x ∷ xs)
    → ((take_cmd this).1 ≡ some x)
      × ((take_cmd this).0.q_size ≡ this.q_size)
      × ((take_cmd this).0.callbackarg ≡ this.callbackarg)
      × Represents (take_cmd this).0 xs
unfolding take_cmd
take_oldest this x xs r =
    let e = step_index-eq-next this.q_size this.q_tail r.small r.cells.tail_in in
    let (front, rest) = Holds-pop r.cells in
    elim (==-cases this.q_head this.q_tail) [
      | inl (t, p) ↦ absurd (Holds-ne r.cells p)
      | inr (t, p) ↦ rw (t, e) (front, refl, refl, record { small = r.small; cells = rest })
    ]

-- A put touches no descriptor.
pub put-Descriptors :
    (this : WatcherCmdQ) (cmd_id arg : ℕ) → Descriptors (watcher_cmd_q_put this cmd_id arg).2 [] []
unfolding watcher_cmd_q_put opens closes
put-Descriptors this cmd_id arg = ground arith

pub put-logs_nothing :
    (this : WatcherCmdQ) (cmd_id arg : ℕ) → count is_log (watcher_cmd_q_put this cmd_id arg).2 ≡ 0
unfolding watcher_cmd_q_put count is_log
put-logs_nothing this cmd_id arg = ground arith

pub put-holds_nothing :
    (this : WatcherCmdQ) (cmd_id arg : ℕ)
    → (count is_keeping (watcher_cmd_q_put this cmd_id arg).2 ≡ 0)
      × (count is_letting_go (watcher_cmd_q_put this cmd_id arg).2 ≡ 0)
unfolding watcher_cmd_q_put count is_keeping is_letting_go
put-holds_nothing this cmd_id arg = ground arith

-- A put uses nothing of the interpreter.
pub put-interpreter :
    (this : WatcherCmdQ) (cmd_id arg : ℕ) (b : Bool) (o : ℕ)
    → let calls = (watcher_cmd_q_put this cmd_id arg).2 in
      (gil_after b calls ≡ some b) × (count (is_new o) calls ≡ 0) × (count (is_decref o) calls ≡ 0)
unfolding watcher_cmd_q_put count is_new is_decref gil_after
put-interpreter this cmd_id arg b o = ground arith

-- Nor does it start or stop the watcher of a descriptor.
pub put-watchers :
    (this : WatcherCmdQ) (cmd_id arg fd : ℕ)
    → (count (is_io_start fd) (watcher_cmd_q_put this cmd_id arg).2 ≡ 0)
      × (count (is_io_stop fd) (watcher_cmd_q_put this cmd_id arg).2 ≡ 0)
unfolding watcher_cmd_q_put count is_io_start is_io_stop
put-watchers this cmd_id arg fd = ground arith
