-- ===== src/Greenev/IoBuffer/Laws.antt =====
-- What the pool of greenev/iobuffer.c hands out, and what it does with a slot that comes back.
use striga2_pocs.Base.{
  ℕ, zero, suc, ◌+◌, ◌*◌, ◌%◌, ◌^◌, ◌<◌, ◌≡◌, refl, ◌∙◌, ap, sym, inl, inr, Option, some, List, [],
  ◌∷◌, length, get_elem?, set, arith, ==-cases, u32, Bool-cases, ltb, ◌==◌,
}
use native.Mathlib.Nat.{mod-add-mod, mod-eq_of_lt}
use striga2_pocs.Calls.{mutex_lock, mutex_unlock}
use striga2_pocs.Greenev.IoBuffer.{
  IoBuffer, Returned, returned, asserted, overrun, slots_from, io_buffer_of, io_buffer_new,
  io_buffer_get, io_buffer_put, get_slots, step_index, io_buffer_slot_size,
}

-- The pool as `io_buffer_new` makes it, but for where `free_slots_tail` stands.
pub record Fresh (this : IoBuffer) (slot_count start : ℕ) : Type 0 where
  pub small : slot_count < 2 ^ 31
  pub counted : this.slot_count ≡ slot_count
  pub head_out : this.free_slots_head ≡ slot_count
  pub tail_in : this.free_slots_tail < slot_count
  pub slots : this.free_slots ≡ slots_from start 0 slot_count

get_elem?-slots_from :
    (start i n k : ℕ)
    → k < n
    → get_elem? (slots_from start i n) k ≡ some (start + io_buffer_slot_size * (i + k))
unfolding slots_from
get_elem?-slots_from start i zero k h = absurd (omega arith)
get_elem?-slots_from start i (suc n) zero h = ap some (omega arith)
get_elem?-slots_from start i (suc n) (suc k) h =
    get_elem?-slots_from start (i + 1) n k (omega arith) ∙ ap some (omega arith)

abbrev slot : ℕ → ℕ → Option ℕ
slot start i = some (start + io_buffer_slot_size * i)

advance : IoBuffer → IoBuffer
advance this = record this { free_slots_tail = step_index this.slot_count this.free_slots_tail }

step_index-mod :
    (this : IoBuffer) (slot_count start : ℕ)
    → Fresh this slot_count start
    → step_index this.slot_count this.free_slots_tail ≡ (this.free_slots_tail + 1) % slot_count
step_index-mod this slot_count start f =
    elim (==-cases (u32 (this.free_slots_tail + 1)) this.slot_count) [
      | inl (t, p) ↦ rw t (grind (arith, f.tail_in, f.counted, f.small))
      | inr (t, p) ↦ rw t (
          let q =
            mod-eq_of_lt {n = this.free_slots_tail + 1} {m = slot_count}
              (omega (arith, f.tail_in, f.counted, f.small)) in
          omega (arith, q, f.small, f.tail_in))
    ]

-- Putting back the first slot writes behind the end of the array.
pub put_overruns :
    (this : IoBuffer) (slot_count start base : ℕ) (iovec : List ℕ)
    → Fresh this slot_count start
    → io_buffer_put this (base ∷ iovec) ≡ overrun
unfolding io_buffer_put
put_overruns this slot_count start base iovec f =
    ground (arith, f.small, f.counted, f.head_out, f.tail_in)

tail-new : (slot_count start k : ℕ) → (io_buffer_of slot_count start).free_slots_tail + k ≡ k
unfolding io_buffer_of
tail-new slot_count start k = omega arith

-- Neither index can meet the other: the head stands behind the end of the array.
get_slots-step :
    (n : ℕ) (this : IoBuffer) (slot_count start : ℕ)
    → Fresh this slot_count start
    → (get_slots (suc n) this ≡ (
      (get_slots n (advance this)).0,
      slot start this.free_slots_tail ∷ (get_slots n (advance this)).1,
    ))
      × Fresh (advance this) slot_count start
      × ((advance this).free_slots_tail ≡ (this.free_slots_tail + 1) % slot_count)
unfolding get_slots advance
get_slots-step n this slot_count start f =
    elim (==-cases this.free_slots_tail this.free_slots_head) [
      | inl (t, p) ↦ absurd (omega arith)
      | inr (t, p) ↦
          let read : get_elem? this.free_slots this.free_slots_tail
              ≡ slot start this.free_slots_tail =
            rw f.slots (
              get_elem?-slots_from start 0 slot_count this.free_slots_tail f.tail_in
              ∙ ap some (omega arith)) in
          let s : step_index this.slot_count this.free_slots_tail
              ≡ (this.free_slots_tail + 1) % slot_count =
            step_index-mod this slot_count start f in
          (
            rw (t, read),
            record {
              small = f.small;
              counted = f.counted;
              head_out = f.head_out;
              tail_in = ground (arith, f.tail_in, f.counted);
              slots = f.slots;
            },
            s,
          )
    ]

get_slots_lem :
    (n k : ℕ) (this : IoBuffer) (slot_count start : ℕ)
    → Fresh this slot_count start
    → Fresh (get_slots n this).0 slot_count start
      × (length (get_slots n this).1 ≡ n)
      × (k < n
          → get_elem? (get_slots n this).1 k
            ≡ some (slot start ((this.free_slots_tail + k) % slot_count)))
unfolding get_slots
get_slots_lem zero k this slot_count start f = (f, refl, λ h. elim h [ ])
get_slots_lem (suc n) zero this slot_count start f =
    let (e, f', s) = get_slots-step n this slot_count start f in
    let (fresh, count, _) = get_slots_lem n zero (advance this) slot_count start f' in
    rw e (
      fresh,
      ap suc count,
      λ h.
          ap (λ i. some (slot start i))
            (sym (mod-eq_of_lt f.tail_in) ∙ ap (λ i. i % slot_count) (omega arith)),
    )
get_slots_lem (suc n) (suc k) this slot_count start f =
    let (e, f', s) = get_slots-step n this slot_count start f in
    let (fresh, count, at) = get_slots_lem n k (advance this) slot_count start f' in
    rw e (
      fresh,
      ap suc count,
      λ h.
          at (omega arith)
          ∙ ap (λ i. some (slot start i))
              (rw (s, mod-add-mod) (ap (λ i. i % slot_count) (omega arith))),
    )

pub new-Fresh :
    (slot_count start : ℕ)
    → 0 < slot_count
    → slot_count < 2 ^ 31
    → Fresh (io_buffer_of slot_count start) slot_count start
unfolding io_buffer_of
new-Fresh slot_count start h s = record {
  small = s;
  counted = refl;
  head_out = refl;
  tail_in = h;
  slots = refl;
}

-- What `io_buffer_get` leaves and gives.
pub io_buffer_get-Fresh :
    (this : IoBuffer) (slot_count start n : ℕ)
    → Fresh this slot_count start
    → let (this', got, iovec, _) = io_buffer_get this n in
      Fresh this' slot_count start × (got ≡ n) × (length iovec ≡ n)
unfolding io_buffer_get
io_buffer_get-Fresh this slot_count start n f =
    let (f', count, _) = get_slots_lem n 0 this slot_count start f in (f', count, count)

-- A new pool gives whatever number of slots it is asked for, and slot number `k` of them is slot
-- `k % 8192` of the memory: past 8192 the slots already given are given again, and the pool never
-- reports that it is empty.
get_from_new :
    (start n k : ℕ)
    → k < n
    → ((io_buffer_get (io_buffer_new start).0 n).1 ≡ n)
      × (get_elem? (io_buffer_get (io_buffer_new start).0 n).2 k
          ≡ some (some (start + 16384 * (k % 8192))))
unfolding io_buffer_get io_buffer_new
get_from_new start n k h =
    let f = new-Fresh 8192 start (omega arith) (omega arith) in
    let (_, count, at) = get_slots_lem n k (io_buffer_of 8192 start) 8192 start f in
    (count, at h ∙ ap (λ i. some (slot start (i % 8192))) (tail-new 8192 start k))

-- After any number of gets from a new pool, the first slot that is put back is written behind the
-- end of the array of free slots.
put_after_gets :
    (start n base : ℕ) (iovec : List ℕ)
    → io_buffer_put (io_buffer_get (io_buffer_new start).0 n).0 (base ∷ iovec) ≡ overrun
unfolding io_buffer_get io_buffer_new
put_after_gets start n base iovec =
    let f = new-Fresh 8192 start (omega arith) (omega arith) in
    let (f', _, _) = get_slots_lem n 0 (io_buffer_of 8192 start) 8192 start f in
    put_overruns (get_slots n (io_buffer_of 8192 start)).0 8192 start base iovec f'

pub io_buffer_get-calls :
    (this : IoBuffer) (n : ℕ)
    → let (_, _, _, calls) = io_buffer_get this n in calls ≡ mutex_lock ∷ mutex_unlock ∷ []
unfolding io_buffer_get
io_buffer_get-calls this n = refl

-- The calls of a put that returns.
abbrev pub QuietPut : Returned → Type 0
QuietPut (returned this calls) = calls ≡ mutex_lock ∷ mutex_unlock ∷ []
QuietPut asserted = Unit
QuietPut overrun = Unit

pub io_buffer_put-calls : (this : IoBuffer) (iovec : List ℕ) → QuietPut (io_buffer_put this iovec)
unfolding io_buffer_put
io_buffer_put-calls this [] = refl
io_buffer_put-calls this (base ∷ iovec) =
    let head' = step_index this.slot_count this.free_slots_head in
    let stored : IoBuffer = record this {
      free_slots_head = head';
      free_slots = set this.free_slots head' base;
    } in
    elim (Bool-cases (head' == this.free_slots_tail)) [
      | inl e ↦ rw e tt
      | inr e ↦ elim (Bool-cases (ltb head' this.slot_count)) [
        | inl l ↦ rw (e, l) (io_buffer_put-calls stored iovec)
        | inr l ↦ rw (e, l) tt
      ]
    ]
