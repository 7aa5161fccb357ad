-- ===== src/Fifo.antt =====
-- What a command queue promises to its clients: a first-in first-out list of at most `capacity`
-- entries, and an interface by which the queues of the programs are shown to keep that promise.
use striga2_pocs.Base.{
  ℕ, ◌+◌, ◌≤◌, ◌<◌, ◌≡◌, refl, inl, inr, Bool, true, false, Option, none, some, List, [], ◌∷◌, ◌++◌,
  arith, length, length-append, ltb, if◌then◌else◌, Bool-cases,
}

-- A request to a queue, and the answer: whether a `put` was accepted, what a `get` took out.
pub data Request {ℓ} (A : Type ℓ) : Type ℓ where
  put : A → Request A
  get : Request A

pub data Answer {ℓ} (A : Type ℓ) : Type ℓ where
  accepted : Bool → Answer A
  taken : Option A → Answer A

module _ {ℓ} {A : Type ℓ} (capacity : ℕ) where
  -- The list queue: a full one refuses, an empty one has nothing to give.
  pub serve : List A → Request A → List A × Answer A
  serve xs (put a) =
      if ltb (length xs) capacity then (xs ++ a ∷ [], accepted true) else (xs, accepted false)
  serve [] get = ([], taken none)
  serve (x ∷ xs) get = (xs, taken (some x))

  pub serve_all : List A → List (Request A) → List (Answer A)
  serve_all xs [] = []
  serve_all xs (r ∷ rs) = let (xs', a) = serve xs r in a ∷ serve_all xs' rs

-- An implementation with the list that each of its states holds, and the four laws of a queue.
pub record Queue {ℓ} (Q A : Type ℓ) : Type (ℓ + 1) where
  pub capacity : ℕ
  pub holds : Q → List A → Type ℓ
  pub put : Q → A → Q × Bool
  pub get : Q → Q × Option A
  pub put_accepts :
      (q : Q) (xs : List A) (a : A)
      → holds q xs
      → length xs < capacity
      → ((put q a).1 ≡ true) × holds (put q a).0 (xs ++ a ∷ [])
  pub put_refuses :
      (q : Q) (xs : List A) (a : A) → holds q xs → capacity ≤ length xs → put q a ≡ (q, false)
  pub get_nothing : (q : Q) → holds q [] → get q ≡ (q, none)
  pub get_oldest :
      (q : Q) (x : A) (xs : List A) → holds q (x ∷ xs) → ((get q).1 ≡ some x) × holds (get q).0 xs

module _ {ℓ} {Q A : Type ℓ} (queue : Queue Q A) where
  pub respond : Q → Request A → Q × Answer A
  respond q (put a) = let (q', b) = queue.put q a in (q', accepted b)
  respond q get = let (q', o) = queue.get q in (q', taken o)

  pub respond_all : Q → List (Request A) → List (Answer A)
  respond_all q [] = []
  respond_all q (r ∷ rs) = let (q', a) = respond q r in a ∷ respond_all q' rs

  Respects : Q → List A → Request A → Type ℓ
  Respects q xs r =
      ((respond q r).1 ≡ (serve queue.capacity xs r).1)
      × queue.holds (respond q r).0 (serve queue.capacity xs r).0

  respond-Respects : (q : Q) (xs : List A) (r : Request A) → queue.holds q xs → Respects q xs r
  unfolding Respects respond serve
  respond-Respects q xs (put a) h = elim (Bool-cases (ltb (length xs) queue.capacity)) [
    | inl e ↦ rw e (let (b, h') = queue.put_accepts q xs a h (ground arith) in (rw b, h'))
    | inr e ↦ rw e (
        let p : queue.put q a ≡ (q, false) = queue.put_refuses q xs a h (ground arith) in
        (rw p, rw p h))
  ]
  respond-Respects q [] get h =
      let p : queue.get q ≡ (q, none) = queue.get_nothing q h in (rw p, rw p h)
  respond-Respects q (x ∷ xs) get h = let (o, h') = queue.get_oldest q x xs h in (rw o, h')

  -- No sequence of requests tells the implementation from the list queue.
  pub respond_all-eq-serve_all :
      (q : Q) (xs : List A) (rs : List (Request A))
      → queue.holds q xs
      → respond_all q rs ≡ serve_all queue.capacity xs rs
  unfolding respond_all serve_all Respects
  respond_all-eq-serve_all q xs [] h = refl
  respond_all-eq-serve_all q xs (r ∷ rs) h =
      let (e, h') = respond-Respects q xs r h in
      rw (e, respond_all-eq-serve_all (respond q r).0 (serve queue.capacity xs r).0 rs h')

-- The batches of puts that arrive while a consumer is at work: the next one, and those after it.
abbrev pub now_or_nil {ℓ} : {A : Type ℓ} → List (List A) → List A
now_or_nil [] = []
now_or_nil (b ∷ bs) = b

abbrev pub later_or_nil {ℓ} : {A : Type ℓ} → List (List A) → List (List A)
later_or_nil [] = []
later_or_nil (b ∷ bs) = bs

abbrev pub total {ℓ} : {A : Type ℓ} → List (List A) → ℕ
total [] = 0
total (b ∷ bs) = length b + total bs

pub total_lem {ℓ} :
    {A : Type ℓ} (bs : List (List A)) → total bs ≡ length (now_or_nil bs) + total (later_or_nil bs)
total_lem [] = omega arith
total_lem (b ∷ bs) = refl

module _ {ℓ} {A : Type ℓ} (capacity : ℕ) where
  -- What is held after a batch of puts, of which those are refused that find the queue full.
  unfoldable pub admit : List A → List A → List A
  unfolding serve
  admit xs [] = xs
  admit xs (a ∷ more) = admit (serve capacity xs (put a)).0 more

  pub admit-cons :
      (xs : List A) (a : A) (more : List A)
      → admit xs (a ∷ more) ≡ admit (if ltb (length xs) capacity then xs ++ a ∷ [] else xs) more
  unfolding admit
  admit-cons xs a more = elim (Bool-cases (ltb (length xs) capacity)) [
    | inl e ↦ rw e
    | inr e ↦ rw e
  ]

  pub admit-nil : (xs : List A) → admit xs [] ≡ xs
  unfolding admit
  admit-nil xs = refl

  -- What a consumer takes out that goes on until it finds nothing: before each `get` a batch of
  -- puts arrives, as long as there are batches.
  unfoldable pub drained : List (List A) → List A → List A
  unfolding admit
  drained [] xs = xs
  drained (b ∷ bs) xs = elim (admit xs b) [ [] ↦ [] | y ∷ ys ↦ y ∷ drained bs ys ]

  -- The same for a consumer that stops as soon as a `get` left nothing behind.
  unfoldable pub drained_once : List (List A) → List A → List A
  unfolding admit
  drained_once [] xs = xs
  drained_once (b ∷ bs) xs = elim (admit xs b) [
    | [] ↦ []
    | y ∷ [] ↦ y ∷ []
    | y ∷ z ∷ zs ↦ y ∷ drained_once bs (z ∷ zs)
  ]

  pub length-admit-le : (xs bs : List A) → length (admit xs bs) ≤ length xs + length bs
  unfolding admit
  length-admit-le xs [] = omega arith
  length-admit-le xs (a ∷ more) = elim (Bool-cases (ltb (length xs) capacity)) [
    | inl e ↦ rw e (omega (arith, length-admit-le (xs ++ a ∷ []) more, length-append xs (a ∷ [])))
    | inr e ↦ rw e (omega (arith, length-admit-le xs more))
  ]

  pub drained-nil :
      (bs : List (List A)) (xs : List A) → admit xs (now_or_nil bs) ≡ [] → drained bs xs ≡ []
  unfolding drained
  drained-nil [] xs e = e
  drained-nil (b ∷ bs) xs e = rw (e, drained)

  pub drained-cons :
      (bs : List (List A)) (xs : List A) (y : A) (ys : List A)
      → admit xs (now_or_nil bs) ≡ y ∷ ys
      → drained bs xs ≡ y ∷ drained (later_or_nil bs) ys
  unfolding drained
  drained-cons [] xs y ys e = e
  drained-cons (b ∷ bs) xs y ys e = rw (e, drained)

  pub drained_once-nil :
      (bs : List (List A)) (xs : List A) → admit xs (now_or_nil bs) ≡ [] → drained_once bs xs ≡ []
  unfolding drained_once
  drained_once-nil [] xs e = e
  drained_once-nil (b ∷ bs) xs e = rw (e, drained_once)

  pub drained_once-one :
      (bs : List (List A)) (xs : List A) (y : A)
      → admit xs (now_or_nil bs) ≡ y ∷ []
      → drained_once bs xs ≡ y ∷ []
  unfolding drained_once
  drained_once-one [] xs y e = e
  drained_once-one (b ∷ bs) xs y e = rw (e, drained_once)

  pub drained_once-more :
      (bs : List (List A)) (xs : List A) (y z : A) (zs : List A)
      → admit xs (now_or_nil bs) ≡ y ∷ z ∷ zs
      → drained_once bs xs ≡ y ∷ drained_once (later_or_nil bs) (z ∷ zs)
  unfolding drained_once
  drained_once-more [] xs y z zs e = e
  drained_once-more (b ∷ bs) xs y z zs e = rw (e, drained_once)

-- A list of commands handed one by one to a callback that acts on a state.
abbrev pub each {ℓ κ} : {A : Type ℓ} {S : Type κ} → (A → S → S) → List A → S → S
each f [] s = s
each f (x ∷ xs) s = each f xs (f x s)
