-- ===== src/Greenev/CmdQCv/Indices.antt =====
-- What the indices of greenev/cmdq_cv.c say of the list of the commands held, and how the two
-- internal functions move them.
use striga2_pocs.Base.{
  ℕ, ◌+◌, ◌^◌, ◌<◌, ◌≤◌, ◌≡◌, refl, ◌≢◌, subst, true, false, some, List, [], ◌∷◌, ◌++◌, length,
  arith, ◌==◌, if◌then◌else◌, ℕ,
}
use striga2_pocs.Ring.{Holds, next, Holds-empty, Holds-push, Holds-pop, Holds-full, Holds-head_in}
use striga2_pocs.Calls.{returns, mutex_init, cond_init}
use striga2_pocs.Greenev.Cmd.{Cmd}
use striga2_pocs.Greenev.CmdQCv.{
  CondCmdQ, cond_cmd_q_new, cond_cmd_q_full, cond_cmd_q_empty, cond_cmd_q_size,
  cond_cmd_q_put_internal, cond_cmd_q_get_internal, indices_in, step_index,
}

-- The queue has `size` cells and holds the commands `xs`, oldest first.
pub record Represents (this : CondCmdQ) (size : ℕ) (xs : List Cmd) : Type 0 where
  pub small : size < 2 ^ 32
  pub sized : this.q_size ≡ size
  pub cells : Holds this.q size this.q_head this.q_tail xs

pub Represents-indices_in :
    {this : CondCmdQ} {size : ℕ} {xs : List Cmd} → Represents this size xs → indices_in this ≡ true
Represents-indices_in {this} {size} r =
    ground (arith, r.sized, Holds-head_in r.cells, r.cells.tail_in)

pub new-Represents :
    (size : ℕ) (cells : List Cmd)
    → 0 < size
    → size < 2 ^ 32
    → length cells ≡ size
    → (this : CondCmdQ) × (cond_cmd_q_new size (some cells) 0 0 0
        ≡ returns (some this, mutex_init ∷ cond_init 0 ∷ cond_init 1 ∷ []))
      × Represents this size []
unfolding cond_cmd_q_new
new-Represents size cells h s e = (
  record { q_size = size; q_head = 0; q_tail = 0; q = cells },
  ground arith,
  record {
    small = s;
    sized = refl;
    cells = subst (λ n. Holds cells n 0 0 []) e (Holds-empty cells (omega arith));
  },
)

pub full_iff :
    {this : CondCmdQ} {size : ℕ} {xs : List Cmd}
    → Represents this size xs
    → cond_cmd_q_full this ≡ (length xs + 1 == size)
unfolding cond_cmd_q_full
full_iff {this} {size} {xs} r =
    ground (arith, r.small, r.sized, r.cells.fits, r.cells.tail_in, r.cells.meets)

pub empty_iff :
    {this : CondCmdQ} {size : ℕ} {xs : List Cmd}
    → Represents this size xs
    → cond_cmd_q_empty this ≡ (length xs == 0)
unfolding cond_cmd_q_empty
empty_iff {this} {size} {xs} r =
    ground (arith, r.small, r.sized, r.cells.fits, r.cells.tail_in, r.cells.meets)

-- As long as the cells in use do not go round the end of the array, the size is right.
pub size_straight :
    {this : CondCmdQ} {size : ℕ} {xs : List Cmd}
    → Represents this size xs
    → this.q_tail ≤ this.q_head
    → cond_cmd_q_size this ≡ length xs
unfolding cond_cmd_q_size
size_straight {this} {size} {xs} r h =
    ground (arith, r.small, r.sized, r.cells.fits, r.cells.tail_in, r.cells.meets)

-- Once they do, with two or more commands in the queue, `cond_cmd_q_size` returns 1 for a full queue
-- and 0 for any other, which is wrong.
size_wrapped :
    {this : CondCmdQ} {size : ℕ} {xs : List Cmd}
    → Represents this size xs
    → this.q_head < this.q_tail
    → 2 ≤ length xs
    → (cond_cmd_q_size this ≡ (if length xs + 1 == size then 1 else 0))
      × (cond_cmd_q_size this ≢ length xs)
unfolding cond_cmd_q_size
size_wrapped {this} {size} {xs} r h two = (
  ground (arith, r.small, r.sized, r.cells.fits, r.cells.tail_in, r.cells.meets),
  ground (arith, two, r.small, r.sized, r.cells.fits, r.cells.tail_in, r.cells.meets),
)

step_index-eq-next : (size i : ℕ) → size < 2 ^ 32 → i < size → step_index size i ≡ next size i
step_index-eq-next size i s h = ground arith

-- A put into a queue that is not full adds the command at the end.
pub put_internal-Represents :
    {this : CondCmdQ} {size : ℕ} {xs : List Cmd} (cmd_id arg : ℕ)
    → Represents this size xs
    → cond_cmd_q_full this ≡ false
    → Represents
        (cond_cmd_q_put_internal this cmd_id arg).0
        size
        (xs ++ (record { id = cmd_id; arg = arg }) ∷ [])
unfolding cond_cmd_q_put_internal
put_internal-Represents {this} {size} {xs} cmd_id arg r open_ =
    let room : length xs + 1 < size = ground (arith, full_iff r, r.cells.fits) in
    let e = step_index-eq-next size this.q_head r.small (Holds-head_in r.cells) in
    record {
      small = r.small;
      sized = r.sized;
      cells =
          rw (r.sized, e)
            (Holds-push (record { id = cmd_id; arg = arg }) r.cells
              (λ p. omega (arith, Holds-full r.cells p)));
    }

-- A get from a queue that holds something takes the oldest command.
pub get_internal-Represents :
    {this : CondCmdQ} {size : ℕ} {x : Cmd} {xs : List Cmd}
    → Represents this size (x ∷ xs)
    → ((cond_cmd_q_get_internal this).1 ≡ some x)
      × Represents (cond_cmd_q_get_internal this).0 size xs
unfolding cond_cmd_q_get_internal
get_internal-Represents {this} {size} r =
    let (front, rest) = Holds-pop r.cells in
    let e = step_index-eq-next size this.q_tail r.small r.cells.tail_in in
    (front, record { small = r.small; sized = r.sized; cells = rw (r.sized, e) rest })
