-- ===== src/Pyglev/CmdQ/Laws.antt =====
-- The command queue of pyglev/pyglev/core/cmdq.c is a bounded queue: what each operation does to
-- the list of the commands held.
use striga2_pocs.Base.{
  ℕ, ◌+◌, ◌-◌, ◌^◌, ◌<◌, ◌≤◌, ◌≡◌, refl, subst, inl, inr, true, false, none, some, List, [], ◌∷◌,
  ◌++◌, length, arith, ltb, ==-cases, Bool-cases, if◌then◌else◌, pos, negsuc, u32_sub, u32, to_int,
}
use striga2_pocs.Calls.{mutex_lock, mutex_unlock, async_send, mutex_init, async_init, returns}
use striga2_pocs.Ring.{
  Holds, next, Holds-empty, Holds-push, Holds-pop, Holds-full, Holds-room, Holds-head_in,
  Holds-count, Holds-ne,
}
use striga2_pocs.Pyglev.CmdQ.{Cmd, CmdQ, cmd_q_new, cmd_q_put, cmd_q_get, step_index}

-- The queue holds the commands `xs`, oldest first; an `int` can count its cells.
pub record Represents (q : CmdQ) (xs : List Cmd) : Type 0 where
  pub small : q.size < 2 ^ 31
  pub cells : Holds q.queue q.size q.head q.tail xs

step_index-eq-next : (size i : ℕ) → size < 2 ^ 31 → i < size → step_index size i ≡ next size i
step_index-eq-next size i s h = ground arith

-- A queue of at least one cell is made empty, whatever the memory held.
pub cmd_q_new-Represents :
    (size : ℕ) (cells : List Cmd)
    → 0 < size
    → size < 2 ^ 31
    → length cells ≡ size
    → (q : CmdQ) × (cmd_q_new size (some cells) ≡ returns (some q, mutex_init ∷ async_init ∷ []))
      × (q.size ≡ size)
      × Represents q []
unfolding cmd_q_new
cmd_q_new-Represents size cells h s e = (
  record { size = size; head = 0; tail = 0; owner = none; queue = cells },
  ground arith,
  refl,
  record {
    small = s;
    cells = subst (λ n. Holds cells n 0 0 []) e (Holds-empty cells (omega arith));
  },
)

pub put-accepts :
    (q : CmdQ) (xs : List Cmd) (id subject : ℕ)
    → Represents q xs
    → length xs + 1 < q.size
    → ((cmd_q_put q true id subject).1 ≡ true)
      × ((cmd_q_put q true id subject).2 ≡ mutex_lock ∷ mutex_unlock ∷ async_send ∷ [])
      × ((cmd_q_put q true id subject).0.size ≡ q.size)
      × Represents
          (cmd_q_put q true id subject).0
          (xs ++ (record { id = id; subject = subject }) ∷ [])
unfolding cmd_q_put
put-accepts q xs id subject r room =
    let e = step_index-eq-next q.size q.head r.small (Holds-head_in r.cells) in
    elim (==-cases (next q.size q.head) q.tail) [
      | inl (t, p) ↦ absurd (omega (arith, Holds-full r.cells p))
      | inr (t, p) ↦
          rw (e, t) (refl, refl, refl, record { small = r.small; cells = Holds-push _ r.cells p })
    ]

pub put-refuses :
    (q : CmdQ) (xs : List Cmd) (id subject : ℕ)
    → Represents q xs
    → q.size ≤ length xs + 1
    → cmd_q_put q true id subject ≡ (q, false, mutex_lock ∷ mutex_unlock ∷ [])
unfolding cmd_q_put
put-refuses q xs id subject r full =
    let e = step_index-eq-next q.size q.head r.small (Holds-head_in r.cells) in
    elim (==-cases (next q.size q.head) q.tail) [
      | inl (t, p) ↦ rw (e, t)
      | inr (t, p) ↦ absurd (omega (arith, Holds-room r.cells p))
    ]

pub get-empty :
    (q : CmdQ) → Represents q [] → cmd_q_get q ≡ (q, negsuc 0, none, mutex_lock ∷ mutex_unlock ∷ [])
unfolding cmd_q_get
get-empty q r = elim (==-cases q.head q.tail) [
  | inl (t, p) ↦ rw t
  | inr (t, p) ↦ absurd (p (ground (arith, r.cells.meets, r.cells.tail_in)))
]

-- The count that `cmd_q_get` works out of the indices, with its conversion to `int`.
count-eq-length :
    (size head tail n : ℕ)
    → size < 2 ^ 31
    → head < size
    → tail < size
    → n < size
    → (if ltb head tail then head + (size - tail) else head - tail) ≡ n
    → to_int (if ltb head tail then u32 (head + u32_sub size tail) else u32_sub head tail) ≡ pos n
count-eq-length size head tail n s hh ht hn e = elim (Bool-cases (ltb head tail)) [
  | inl b ↦ rw b (ground arith)
  | inr b ↦ rw b (ground arith)
]

pub get-oldest :
    (q : CmdQ) (x : Cmd) (xs : List Cmd)
    → Represents q (x ∷ xs)
    → ((cmd_q_get q).1 ≡ pos (length xs))
      × ((cmd_q_get q).2 ≡ some x)
      × ((cmd_q_get q).3 ≡ mutex_lock ∷ mutex_unlock ∷ [])
      × ((cmd_q_get q).0.size ≡ q.size)
      × Represents (cmd_q_get q).0 xs
unfolding cmd_q_get
get-oldest q x xs r =
    let e = step_index-eq-next q.size q.tail r.small r.cells.tail_in in
    let (front, rest) = Holds-pop r.cells in
    elim (==-cases q.head q.tail) [
      | inl (t, p) ↦ absurd (Holds-ne r.cells p)
      | inr (t, p) ↦
          rw (t, e)
            (
              count-eq-length q.size q.head (next q.size q.tail) (length xs) r.small
                  (Holds-head_in r.cells) rest.tail_in rest.fits (Holds-count rest),
              front,
              refl,
              refl,
              record { small = r.small; cells = rest },
            )
    ]
