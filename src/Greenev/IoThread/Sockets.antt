-- ===== src/Greenev/IoThread/Sockets.antt =====
-- What the I/O thread of greenev/iothread.c does with its lists of sockets: on the command DIE, when
-- a connection is accepted, and when a socket object is closed.
use striga2_pocs.Base.{
  ℕ, ◌+◌, ◌<◌, ◌≡◌, refl, ◌∙◌, ap, ap₂, ◌⊎◌, inl, inr, Bool, true, false, Option, none, some, List,
  [], ◌∷◌, ◌++◌, append-nil, map, length, arith, ◌==◌, List-cases, if◌then◌else◌,
}
use striga2_pocs.Calls.{Call, opens, closes, count, count-append, closes-append, is_free}
use striga2_pocs.Greenev.Cmd.{Cmd}
use striga2_pocs.Greenev.IoThread.{
  SockObj, IoThread, ended, asserted_out, used_after_free, close_sockets, on_iot_cmd, unlink,
  io_thread_sockobj_close, on_io_thread_accept, iot_cmd_io_thread_die,
}

abbrev pub die : Cmd
die = record { id = iot_cmd_io_thread_die; arg = 0 }

abbrev pub fds : List SockObj → List ℕ
fds = map (λ s. s.fd)

-- What one loop does where freed memory keeps what it was.
close_sockets-intact :
    (intact : ℕ → Bool) (sockets : List SockObj)
    → ((address : ℕ) → intact address ≡ true)
    → (calls : List Call) × (close_sockets intact sockets ≡ some calls)
      × (closes calls ≡ fds sockets)
      × (count is_free calls ≡ length sockets)
unfolding close_sockets closes count is_free
close_sockets-intact intact [] h = ([], refl, refl, refl)
close_sockets-intact intact (s ∷ more) h =
    let (calls, e, c, f) = close_sockets-intact intact more h in
    (
      Call.close s.fd ∷ Call.io_stop s.fd ∷ Call.free ∷ calls,
      rw (h s.address, e, close_sockets) refl,
      ap (◌∷◌ s.fd) c,
      omega arith,
    )

close_sockets-not_intact :
    (intact : ℕ → Bool) (sockets : List SockObj)
    → ((address : ℕ) → intact address ≡ false)
    → 0 < length sockets
    → close_sockets intact sockets ≡ none
unfolding close_sockets
close_sockets-not_intact intact [] h n = absurd (omega arith)
close_sockets-not_intact intact (s ∷ more) h n = rw (h s.address, close_sockets) refl

-- Where freed memory stays what it was, DIE empties both lists; it closes the descriptor of each
-- listening socket, then that of each established one, in order, and frees each object once.
die-closes :
    (memory : ℕ → SockObj) (intact : ℕ → Bool) (this : IoThread)
    → ((address : ℕ) → intact address ≡ true)
    → (calls : List Call) × (on_iot_cmd memory intact this die
        ≡ ended (record this { listening = []; established = [] }) calls)
      × (closes calls ≡ fds this.listening ++ fds this.established)
      × (count is_free calls ≡ length this.listening + length this.established)
unfolding on_iot_cmd closes count is_free
die-closes memory intact this h =
    let (calls, e, c, f) = close_sockets-intact intact this.listening h in
    let (more, e', c', f') = close_sockets-intact intact this.established h in
    let last = Call.loop_unref ∷ [] in
    (
      calls ++ (more ++ last),
      rw (e, e') refl,
      closes-append calls (more ++ last)
          ∙ ap₂ ◌++◌ c (closes-append more last ∙ append-nil (closes more) ∙ c'),
      omega
          (arith, count-append is_free calls (more ++ last), count-append is_free more last, f, f'),
    )

-- Where freed memory does not stay what it was, DIE reads it after it was freed as soon as there is
-- one socket.
die-use_after_free :
    (memory : ℕ → SockObj) (intact : ℕ → Bool) (this : IoThread)
    → ((address : ℕ) → intact address ≡ false)
    → 0 < length this.listening + length this.established
    → on_iot_cmd memory intact this die ≡ used_after_free
unfolding on_iot_cmd close_sockets
die-use_after_free memory intact this h n = elim (List-cases this.listening) [
  | inl e ↦
      rw (e, close_sockets-not_intact intact this.established h (omega (arith, n, ap length e)))
        refl
  | inr (s, more, e) ↦ rw (e, close_sockets-not_intact intact (s ∷ more) h (omega arith)) refl
]

-- Whether a list has a node at an address.
unfoldable pub has_node : ℕ → List SockObj → Bool
has_node address [] = false
has_node address (s ∷ more) = if s.address == address then true else has_node address more

unlink-absent :
    (address : ℕ) (xs : List SockObj) → has_node address xs ≡ false → unlink address xs ≡ none
unfolding unlink has_node
unlink-absent address [] h = refl
unlink-absent address (s ∷ more) h = ground (arith, unlink-absent address more)

pub unlink-present :
    (s : SockObj) (before after : List SockObj)
    → has_node s.address before ≡ false
    → unlink s.address (before ++ s ∷ after) ≡ some (before ++ after)
unfolding unlink has_node
unlink-present s [] after h = ground arith
unlink-present s (b ∷ before) after h = ground (arith, unlink-present s before after)

-- Closing a socket object of this thread takes it, and no other, out of the list, closes its
-- descriptor and frees it. An object that is not in the list, or that belongs to another thread,
-- fails an assert.
pub sockobj_close-removes :
    (this : IoThread) (s : SockObj) (before after : List SockObj)
    → has_node s.address before ≡ false
    → (io_thread_sockobj_close true (record this { established = before ++ s ∷ after }) s
        ≡ ended
            (record this { established = before ++ after })
            (Call.close s.fd ∷ Call.io_stop s.fd ∷ Call.free ∷ []))
      × (io_thread_sockobj_close true (record this { established = before }) s ≡ asserted_out)
      × (io_thread_sockobj_close false this s ≡ asserted_out)
unfolding io_thread_sockobj_close
sockobj_close-removes this s before after h =
    (rw (unlink-present s before after h) refl, rw (unlink-absent s.address before h) refl, refl)

-- On every branch of `_on_io_thread_accept`, a descriptor that it accepts is either closed again, and the list of established sockets is as before, or it stays open in a new object
-- at the head of that list.
accept-descriptors :
    (this : IoThread) (l : SockObj) (is_error is_read : Bool) (client : Option (ℕ × ℕ))
    (has_app : Bool) (address : ℕ)
    → let (this', calls) = on_io_thread_accept this l is_error is_read client has_app address in
      ((this' ≡ this) × (closes calls ≡ opens calls)
        ⊎ ((s : SockObj) × (this' ≡ record this { established = s ∷ this.established })
            × (opens calls ≡ s.fd ∷ [])
            × (closes calls ≡ [])))
unfolding on_io_thread_accept opens closes
accept-descriptors this l true r c a address = inl (refl, refl)
accept-descriptors this l false false c a address = inl (refl, refl)
accept-descriptors this l false true none a address = inl (refl, refl)
accept-descriptors this l false true (some (fd, peer)) false address = inl (refl, refl)
accept-descriptors this l false true (some (fd, peer)) true address = inr (_, refl, refl, refl)
