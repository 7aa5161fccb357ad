-- ===== src/Ring.antt =====
-- A circular array: the cells from `tail` up to `head`, going round at `size`, as a list. The
-- command queues of the three programs (pyglev/pyglev/core/cmdq.c, greenev/cmdq_ev.c,
-- greenev/cmdq_cv.c) share this representation, each with one cell left free.
use striga2_pocs.Base.{
  ℕ, ◌+◌, ◌-◌, ◌<◌, ◌≡◌, refl, ap, ◌∙◌, ◌≢◌, some, List, [], ◌∷◌, ◌++◌, arith, length, get_elem?,
  set, length-append, length-set, get_elem?-set_self, get_elem?-set_ne, ltb, ◌==◌, if◌then◌else◌,
}

-- The index after `i`.
abbrev pub next : ℕ → ℕ → ℕ
next size i = if i + 1 == size then 0 else i + 1

-- An index that may have gone round once.
abbrev pub wrap : ℕ → ℕ → ℕ
wrap size i = if ltb i size then i else i - size

module _ {ℓ} {A : Type ℓ} where
  -- From index `t` on the cells hold the given items, in order.
  abbrev pub Window : List A → ℕ → ℕ → List A → Type ℓ
  Window cells size t [] = Unit
  Window cells size t (x ∷ xs) = (get_elem? cells t ≡ some x) × Window cells size (next size t) xs

  -- The array holds the queue `xs`, oldest first, in the cells from `tail` up to `head`.
  pub record Holds (cells : List A) (size head tail : ℕ) (xs : List A) : Type ℓ where
    pub room : length cells ≡ size
    pub fits : length xs < size
    pub tail_in : tail < size
    pub meets : wrap size (tail + length xs) ≡ head
    pub window : Window cells size tail xs

  -- A write at an index that the window does not reach leaves the window as it was.
  Window-set :
      (cells : List A) (size t i : ℕ) (v : A) (xs : List A)
      → t < size
      → length xs < size
      → wrap size (t + length xs) ≡ i
      → Window cells size t xs
      → Window (set cells i v) size t xs
  Window-set cells size t i v [] ht hl e w = tt
  Window-set cells size t i v (x ∷ xs) ht hl e w = (
    get_elem?-set_ne cells i t v (λ p. ground arith) ∙ w.0,
    Window-set cells size (next size t) i v xs (ground arith) (omega arith) (ground arith) w.1,
  )

  Window-append :
      (cells : List A) (size t : ℕ) (xs : List A) (v : A)
      → t < size
      → length xs < size
      → get_elem? cells (wrap size (t + length xs)) ≡ some v
      → Window cells size t xs
      → Window cells size t (xs ++ v ∷ [])
  Window-append cells size t [] v ht hl e w = (ap (get_elem? cells) (ground arith) ∙ e, tt)
  Window-append cells size t (x ∷ xs) v ht hl e w = (
    w.0,
    Window-append cells size (next size t) xs v (ground arith) (omega arith)
        (ap (get_elem? cells) (ground arith) ∙ e) w.1,
  )

  -- An array just allocated, both indices at 0, holds the empty queue.
  pub Holds-empty : (cells : List A) → 0 < length cells → Holds cells (length cells) 0 0 []
  Holds-empty cells h = record {
    room = refl;
    fits = h;
    tail_in = h;
    meets = ground arith;
    window = tt;
  }

  module _ {cells : List A} {size head tail : ℕ} where
    pub Holds-head_in : {xs : List A} → Holds cells size head tail xs → head < size
    Holds-head_in {xs} h = ground (arith, h.fits, h.tail_in, h.meets)

    -- The indices meet exactly when nothing is held.
    pub Holds-nil : {xs : List A} → Holds cells size head tail xs → head ≡ tail → xs ≡ []
    Holds-nil {xs = []} h e = refl
    Holds-nil {xs = x ∷ xs} h e = absurd (ground (arith, h.fits, h.tail_in, h.meets))

    pub Holds-ne : {x : A} {xs : List A} → Holds cells size head tail (x ∷ xs) → head ≢ tail
    Holds-ne {x} {xs} h e = ground (arith, h.fits, h.tail_in, h.meets)

    -- One more step of `head` would meet `tail` exactly when one cell is left free.
    pub Holds-full :
        {xs : List A} → Holds cells size head tail xs → next size head ≡ tail → length xs + 1 ≡ size
    Holds-full {xs} h e = ground (arith, h.fits, h.tail_in, h.meets)

    pub Holds-room :
        {xs : List A} → Holds cells size head tail xs → next size head ≢ tail → length xs + 1 < size
    Holds-room {xs} h ne = ground (arith, h.fits, h.tail_in, h.meets)

    -- A write at `head`, and a step of it, add an item at the end.
    pub Holds-push :
        {xs : List A} (v : A)
        → Holds cells size head tail xs
        → next size head ≢ tail
        → Holds (set cells head v) size (next size head) tail (xs ++ v ∷ [])
    Holds-push {xs} v h ne = record {
      room = length-set cells head v ∙ h.room;
      fits = omega (arith, length-append xs (v ∷ []), Holds-room h ne);
      tail_in = h.tail_in;
      meets =
          ground (arith, length-append xs (v ∷ []), Holds-room h ne, h.fits, h.tail_in, h.meets);
      window =
          Window-append (set cells head v) size tail xs v h.tail_in h.fits
            (rw h.meets (get_elem?-set_self cells head v (omega (arith, h.room, Holds-head_in h))))
            (Window-set cells size tail head v xs h.tail_in h.fits h.meets h.window);
    }

    -- A step of `tail` takes the oldest item off.
    pub Holds-pop :
        {x : A} {xs : List A}
        → Holds cells size head tail (x ∷ xs)
        → (get_elem? cells tail ≡ some x) × Holds cells size head (next size tail) xs
    Holds-pop {x} {xs} h = (
      h.window.0,
      record {
        room = h.room;
        fits = omega (arith, h.fits);
        tail_in = ground (arith, h.tail_in);
        meets = ground (arith, h.fits, h.tail_in, h.meets);
        window = h.window.1;
      },
    )

    -- The count that the two indices show.
    pub Holds-count :
        {xs : List A}
        → Holds cells size head tail xs
        → (if ltb head tail then head + (size - tail) else head - tail) ≡ length xs
    Holds-count {xs} h = ground (arith, h.fits, h.tail_in, h.meets)
