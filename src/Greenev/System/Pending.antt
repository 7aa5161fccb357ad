-- ===== src/Greenev/System/Pending.antt =====
-- The descriptors that commands in the queue of the I/O thread of greenev/iothread.c bring.
use striga2_pocs.Base.{
  ℕ, ◌+◌, ◌≡◌, refl, ap, inl, inr, List, [], ◌∷◌, ◌++◌, map, length, ltb, arith, Bool-cases,
}
use striga2_pocs.Fifo.{admit, admit-cons, admit-nil}
use striga2_pocs.Greenev.Cmd.{Cmd}
use striga2_pocs.Greenev.IoThread.{SockObj}
use striga2_pocs.Greenev.IoThread.Connecting.Listen.{commands}
use striga2_pocs.Greenev.IoThread.Life.{command}
use striga2_pocs.Greenev.IoThread.Life.Accounts.{times, times-append, held, fds, brought}
use striga2_pocs.Greenev.System.{System, refused}

-- The descriptors of the objects that commands point to.
unfoldable pub pending : (ℕ → SockObj) → List Cmd → List ℕ
unfolding brought
pending memory [] = []
pending memory (c ∷ cs) = brought memory (command c ∷ []) ++ pending memory cs

pub pending-append :
    (memory : ℕ → SockObj) (fd : ℕ) (xs ys : List Cmd)
    → times fd (pending memory (xs ++ ys))
      ≡ times fd (pending memory xs) + times fd (pending memory ys)
unfolding pending times
pending-append memory fd [] ys = omega arith
pending-append memory fd (x ∷ xs) ys =
    let b = brought memory (command x ∷ []) in
    omega (
      arith,
      pending-append memory fd xs ys,
      times-append fd b (pending memory xs),
      times-append fd b (pending memory (xs ++ ys)),
    )

-- A command that is put waits or is refused.
pub admit-pending :
    (memory : ℕ → SockObj) (fd capacity : ℕ) (xs cs : List Cmd)
    → times fd (pending memory (admit capacity xs cs))
        + times fd (pending memory (refused capacity xs cs))
      ≡ times fd (pending memory xs) + times fd (pending memory cs)
unfolding pending times refused
admit-pending memory fd capacity xs [] = rw (admit-nil capacity xs) refl
admit-pending memory fd capacity xs (c ∷ cs) =
    let b = brought memory (command c ∷ []) in
    elim (Bool-cases (ltb (length xs) capacity)) [
      | inl e ↦
          rw (admit-cons capacity xs c cs, e)
            (omega (
              arith,
              admit-pending memory fd capacity (xs ++ c ∷ []) cs,
              pending-append memory fd xs (c ∷ []),
              times-append fd b (pending memory cs),
              times-append fd b [],
            ))
      | inr e ↦
          rw (admit-cons capacity xs c cs, e)
            (omega (
              arith,
              admit-pending memory fd capacity xs cs,
              times-append fd b (pending memory cs),
              times-append fd b (pending memory (refused capacity xs cs)),
            ))
    ]

pub commands-pending :
    (memory : ℕ → SockObj) (objects : List SockObj)
    → pending memory (commands objects) ≡ fds (map (λ s. memory s.address) objects)
unfolding pending brought
commands-pending memory [] = refl
commands-pending memory (s ∷ objects) =
    ap (λ xs. (memory s.address).fd ∷ xs) (commands-pending memory objects)

-- The places where a descriptor stands in the system: the two lists, the queue, and the commands
-- that found it full.
unfoldable pub standing : (ℕ → SockObj) → ℕ → System → ℕ
unfolding times pending
standing memory fd s =
    times fd (held s.thread)
    + times fd (pending memory s.waiting)
    + times fd (pending memory s.lost)
