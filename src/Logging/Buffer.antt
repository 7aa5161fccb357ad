-- ===== src/Logging/Buffer.antt =====
-- Stores into an array of characters, as the log of greenev/logging.c and singlev/src/logging.c
-- makes them.
use striga2_pocs.Base.{
  ℕ, zero, suc, ◌+◌, ◌≤◌, ◌<◌, ◌≡◌, refl, sym, ◌∙◌, ap, ap₂, subst, Option, none, some, List, [],
  ◌∷◌, ◌++◌, append_assoc, length, length-append, arith,
}

-- Stores one after the other.
infixl 5 ◌>>=◌
abbrev pub ◌>>=◌ {ℓ κ} : {A : Type ℓ} {B : Type κ} → Option A → (A → Option B) → Option B
none >>= f = none
some x >>= f = f x

-- Bytes stored one after the other from an index; `none` is a store outside the array.
unfoldable pub store : ℕ → List ℕ → List ℕ → Option (List ℕ)
store zero [] buffer = some buffer
store zero (b ∷ bytes) [] = none
store zero (b ∷ bytes) (x ∷ buffer) = elim (store zero bytes buffer) [
  | none ↦ none
  | some stored ↦ some (b ∷ stored)
]
store (suc i) bytes [] = none
store (suc i) bytes (x ∷ buffer) = elim (store i bytes buffer) [
  | none ↦ none
  | some stored ↦ some (x ∷ stored)
]

-- An array of `size` characters that begins with some.
pub record Begins (size : ℕ) (s buffer : List ℕ) : Type 0 where
  pub rest : List ℕ
  pub split : buffer ≡ s ++ rest
  pub sized : length buffer ≡ size

store-front :
    (bytes rest : List ℕ)
    → length bytes ≤ length rest
    → (rest' : List ℕ) × (store 0 bytes rest ≡ some (bytes ++ rest'))
      × (length rest' + length bytes ≡ length rest)
unfolding store
store-front [] rest h = (rest, refl, omega arith)
store-front (b ∷ bytes) [] h = absurd (omega arith)
store-front (b ∷ bytes) (x ∷ rest) h =
    let (rest', e, n) = store-front bytes rest (omega arith) in (rest', rw e refl, omega (arith, n))

store-behind :
    (s bytes rest stored : List ℕ)
    → store 0 bytes rest ≡ some stored
    → store (length s) bytes (s ++ rest) ≡ some (s ++ stored)
unfolding store
store-behind [] bytes rest stored e = e
store-behind (c ∷ s) bytes rest stored e = rw (store-behind s bytes rest stored e) refl

-- A store behind what the array begins with, if it fits.
pub store-Begins :
    {size : ℕ} {s : List ℕ} (bytes : List ℕ) {buffer : List ℕ} (i : ℕ)
    → Begins size s buffer
    → i ≡ length s
    → length s + length bytes ≤ size
    → (stored : List ℕ) × (store i bytes buffer ≡ some stored) × Begins size (s ++ bytes) stored
store-Begins {size} {s} bytes {buffer} i b e h =
    let sized = sym b.sized ∙ ap length b.split ∙ length-append s b.rest in
    let (rest, front, n) = store-front bytes b.rest (omega (arith, h, sized)) in
    (
      s ++ (bytes ++ rest),
      ap₂ (λ i b. store i bytes b) e b.split ∙ store-behind s bytes b.rest (bytes ++ rest) front,
      record {
        rest = rest;
        split = sym (append_assoc s bytes rest);
        sized = omega (arith, length-append s (bytes ++ rest), length-append bytes rest, n, sized);
      },
    )

-- A store that does not fit.
pub store-beyond :
    (i : ℕ) (b : ℕ) (bytes buffer : List ℕ)
    → length buffer < i + suc (length bytes)
    → store i (b ∷ bytes) buffer ≡ none
unfolding store
store-beyond zero b [] [] h = refl
store-beyond zero b (c ∷ bytes) [] h = refl
store-beyond zero b [] (x ∷ buffer) h = absurd (omega arith)
store-beyond zero b (c ∷ bytes) (x ∷ buffer) h =
    rw (store-beyond zero c bytes buffer (omega arith)) refl
store-beyond (suc i) b bytes [] h = refl
store-beyond (suc i) b bytes (x ∷ buffer) h = rw (store-beyond i b bytes buffer (omega arith)) refl

-- A store that fits makes the array neither longer nor shorter.
pub length-store :
    (i : ℕ) (bytes buffer stored : List ℕ)
    → store i bytes buffer ≡ some stored
    → length stored ≡ length buffer
unfolding store
length-store zero [] buffer stored e = ground (arith, e)
length-store zero (b ∷ bytes) [] stored e = ground (arith, e)
length-store zero (b ∷ bytes) (x ∷ buffer) stored e = grind (arith, length-store zero bytes buffer)
length-store (suc i) bytes [] stored e = ground (arith, e)
length-store (suc i) bytes (x ∷ buffer) stored e = grind (arith, length-store i bytes buffer)

-- What is written behind is forgotten.
pub Begins-less :
    {size : ℕ} (s t : List ℕ) {buffer : List ℕ} → Begins size (s ++ t) buffer → Begins size s buffer
Begins-less s t b = record {
  rest = t ++ b.rest;
  split = b.split ∙ append_assoc s t b.rest;
  sized = b.sized;
}

-- A store of a string with its NUL, which a later store may replace.
pub store_string :
    {size : ℕ} {s : List ℕ} (t bytes : List ℕ) {buffer : List ℕ} (i : ℕ)
    → bytes ≡ t ++ 0 ∷ []
    → Begins size s buffer
    → i ≡ length s
    → length s + length t < size
    → (stored : List ℕ) × (store i bytes buffer ≡ some stored) × Begins size (s ++ t) stored
store_string {size} {s} t bytes i e b at h =
    let nul : List ℕ = 0 ∷ [] in
    let (stored, all, b') =
      store-Begins bytes i b at (omega (arith, h, ap length e, length-append t nul)) in
    let split : s ++ bytes ≡ (s ++ t) ++ nul = ap (λ r. s ++ r) e ∙ sym (append_assoc s t nul) in
    (stored, all, Begins-less (s ++ t) nul (subst (λ r. Begins size r stored) split b'))
