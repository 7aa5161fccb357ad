-- ===== src/Greenev/IoBuffer.antt =====
-- The pool of I/O buffer slots of greenev/iobuffer.c: a circular array of the addresses of the free
-- slots, behind a mutex, in front of the slots themselves.
pub mod Laws
use striga2_pocs.Base.{
  ℕ, zero, suc, ◌+◌, ◌*◌, Bool, Option, none, some, List, [], ◌∷◌, length, get_elem?, set, ltb,
  ◌==◌, if◌then◌else◌, u32,
}
use striga2_pocs.Calls.{Call, mutex_lock, mutex_unlock, mutex_init, mutex_destroy, free, log}

abbrev pub io_buffer_slot_size : ℕ
io_buffer_slot_size = 16384

-- `struct io_buffer`; `free_slots` are `slot_count` addresses, and the slots lie behind them.
pub record IoBuffer : Type 0 where
  pub slot_count : ℕ
  pub free_slots_head : ℕ
  pub free_slots_tail : ℕ
  pub free_slots : List ℕ

-- The addresses of `n` slots from number `i` on, where the slots begin at address `start`.
pub slots_from : ℕ → ℕ → ℕ → List ℕ
slots_from start i zero = []
slots_from start i (suc n) = (start + io_buffer_slot_size * i) ∷ slots_from start (i + 1) n

pub io_buffer_of : ℕ → ℕ → IoBuffer
unfolding slots_from
io_buffer_of slot_count start = record {
  slot_count = slot_count;
  free_slots_head = slot_count;
  free_slots_tail = 0;
  free_slots = slots_from start 0 slot_count;
}

-- `start` is the address `this->data`. The code does not test what `malloc` returns.
unfoldable pub io_buffer_new : ℕ → IoBuffer × List Call
io_buffer_new start = (io_buffer_of 8192 start, log ∷ mutex_init ∷ [])

pub io_buffer_delete : IoBuffer → List Call
io_buffer_delete this = mutex_destroy ∷ free ∷ []

pub io_buffer_empty : IoBuffer → Bool
io_buffer_empty this = this.free_slots_tail == this.free_slots_head

abbrev pub step_index : ℕ → ℕ → ℕ
step_index slot_count i = if u32 (i + 1) == slot_count then 0 else u32 (i + 1)

-- The loop of `io_buffer_get`: the addresses stored in `iovec`, `none` for a read outside the array.
pub get_slots : ℕ → IoBuffer → IoBuffer × List (Option ℕ)
unfolding io_buffer_empty
get_slots zero this = (this, [])
get_slots (suc n) this =
    let (this', iovec) =
      get_slots n
        (record this { free_slots_tail = step_index this.slot_count this.free_slots_tail }) in
    if io_buffer_empty this
    then (this, [])
    else (this', get_elem? this.free_slots this.free_slots_tail ∷ iovec)

-- The number of slots got, the addresses, and the calls.
pub io_buffer_get : IoBuffer → ℕ → IoBuffer × ℕ × List (Option ℕ) × List Call
unfolding get_slots
io_buffer_get this slot_count =
    let (this', iovec) = get_slots slot_count this in
    (this', length iovec, iovec, mutex_lock ∷ mutex_unlock ∷ [])

-- How a put ends: with the slots back in the pool, by the assert, or with a write behind the end of
-- `free_slots`, into the memory of the slots.
pub data Returned : Type 0 where
  returned : IoBuffer → List Call → Returned
  asserted : Returned
  overrun : Returned

pub io_buffer_put : IoBuffer → List ℕ → Returned
io_buffer_put this [] = returned this (mutex_lock ∷ mutex_unlock ∷ [])
io_buffer_put this (base ∷ iovec) =
    let head' = step_index this.slot_count this.free_slots_head in
    let rest =
      io_buffer_put
        (record this { free_slots_head = head'; free_slots = set this.free_slots head' base })
        iovec in
    if head' == this.free_slots_tail
    then asserted
    else (if ltb head' this.slot_count then rest else overrun)
