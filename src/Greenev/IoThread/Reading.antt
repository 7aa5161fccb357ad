-- ===== src/Greenev/IoThread/Reading.antt =====
-- `_on_io_thread_readwrite` of greenev/iothread.c together with the pool of greenev/iobuffer.c that
-- it reads into.
use striga2_pocs.Base.{
  ℕ, zero, suc, ◌+◌, ◌/◌, ◌<◌, ◌≤◌, ◌≡◌, refl, true, false, Option, none, some, List, [], ◌∷◌, ◌++◌,
  length, arith, ltb, ◌==◌, pos, negsuc,
}
use striga2_pocs.Calls.{Call}
use striga2_pocs.Greenev.IoBuffer.{io_buffer_get, io_buffer_slot_size}
use striga2_pocs.Greenev.IoBuffer.Laws.{Fresh, put_overruns, io_buffer_get-Fresh}
use striga2_pocs.Greenev.IoThread.{
  SockObj, IoThread, ended, overran, unlink, io_thread_sockobj_close, on_io_thread_readwrite, drop,
  bases, give_back, then_give_back,
}

-- What is left of the addresses after some of them.
drop-bases :
    (k : ℕ) (iovec : List (Option ℕ))
    → k < length iovec
    → (base : ℕ) × (more : List ℕ) × (drop k (bases iovec) ≡ base ∷ more)
drop-bases k [] h = absurd (omega arith)
drop-bases zero (none ∷ iovec) h = (0, bases iovec, refl)
drop-bases zero (some base ∷ iovec) h = (base, bases iovec, refl)
drop-bases (suc k) (none ∷ iovec) h = drop-bases k iovec (omega arith)
drop-bases (suc k) (some base ∷ iovec) h = drop-bases k iovec (omega arith)

give_back-overran :
    (this : IoThread) (calls : List Call) (slot_count start base : ℕ) (iovec more : List ℕ)
    → Fresh this.tmp_io_buf slot_count start
    → iovec ≡ base ∷ more
    → give_back this calls iovec ≡ overran
unfolding give_back
give_back-overran this calls slot_count start base iovec more f e =
    rw (e, give_back, put_overruns this.tmp_io_buf slot_count start base more f) refl

-- Where a pool has only been taken from, a handler that reads between 1 and 49152 bytes gives back
-- the slots that it did not fill, and so writes behind the end of the array of free slots.
pub short_read-overruns :
    (this : IoThread) (sockobj : SockObj) (slot_count start n : ℕ)
    → Fresh this.tmp_io_buf slot_count start
    → n < 49152
    → on_io_thread_readwrite this sockobj true (pos (suc n)) ≡ overran
unfolding on_io_thread_readwrite
short_read-overruns this sockobj slot_count start n f h =
    let (f', got, count) = io_buffer_get-Fresh this.tmp_io_buf slot_count start 4 f in
    let used = 1 + n / io_buffer_slot_size in
    let few : used < 4 = omega arith in
    let some_left : (used == 4) ≡ false = ground arith in
    let given_back : ltb used 4 ≡ true = ground arith in
    let (base, more, e) = drop-bases used (io_buffer_get this.tmp_io_buf 4).2 (rw count few) in
    rw (got, some_left, given_back) (give_back-overran _ _ slot_count start base _ more f' e)

-- Where a pool has only been taken from, and the peer has closed the connection or the read fails on
-- a socket in the list of established ones, the handler gives back all slots, and so writes behind
-- the end of the array of free slots.
closed_read-overruns :
    (this : IoThread) (sockobj : SockObj) (slot_count start : ℕ) (more : List SockObj)
    → Fresh this.tmp_io_buf slot_count start
    → unlink sockobj.address this.established ≡ some more
    → (n : ℕ)
    → (on_io_thread_readwrite this sockobj true (pos zero) ≡ overran)
      × (on_io_thread_readwrite this sockobj true (negsuc n) ≡ overran)
unfolding on_io_thread_readwrite io_thread_sockobj_close
closed_read-overruns this sockobj slot_count start more f h n =
    let (f', got, count) = io_buffer_get-Fresh this.tmp_io_buf slot_count start 4 f in
    let (base, others, e) =
      drop-bases 0 (io_buffer_get this.tmp_io_buf 4).2 (rw count (omega arith)) in
    (
      rw (got, h, then_give_back) (give_back-overran _ _ slot_count start base _ others f' e),
      rw (got, h, then_give_back) (give_back-overran _ _ slot_count start base _ others f' e),
    )

-- Where a pool has only been taken from, a handler that reads more than 49152 bytes, and at most the
-- 65536 that four slots have, keeps all four: it ends well, leaves the list of
-- established sockets as it was, and leaves a pool that has only been taken from.
full_read-keeps :
    (this : IoThread) (sockobj : SockObj) (slot_count start n : ℕ)
    → Fresh this.tmp_io_buf slot_count start
    → 49152 ≤ n
    → n < 65536
    → (this' : IoThread) × (calls : List Call) × (on_io_thread_readwrite this sockobj true
          (pos (suc n))
        ≡ ended this' calls)
      × (this'.established ≡ this.established)
      × Fresh this'.tmp_io_buf slot_count start
unfolding on_io_thread_readwrite
full_read-keeps this sockobj slot_count start n f low high =
    let (f', got, count) = io_buffer_get-Fresh this.tmp_io_buf slot_count start 4 f in
    let used = 1 + n / io_buffer_slot_size in
    let all_filled : (used == 4) ≡ true = ground arith in
    let (buf, iovcnt, iovec, calls) = io_buffer_get this.tmp_io_buf 4 in
    (
      record this { tmp_io_buf = buf },
      (calls ++ Call.read sockobj.fd ∷ []) ++ Call.log ∷ [],
      rw (got, all_filled) refl,
      refl,
      f',
    )
