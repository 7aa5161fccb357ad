-- ===== src/Pyglev/EstSocket/Laws.antt =====
-- What pyglev/pyglev/core/estsock.c does with the references, the memory and the interpreter lock.
use striga2_pocs.Base.{
  ℕ, ◌+◌, ◌≡◌, ◌≢◌, ◌⊎◌, ◌&&◌, not, pos, negsuc, Bool, true, false, Option, none, some, arith, ℤ,
  if◌then◌else◌,
}
use striga2_pocs.Calls.{gil_after, count, is_incref, is_decref, is_malloc, is_free}
use striga2_pocs.Pyglev.EstSocket.{EstSocket, Config, Revents, est_socket_new, on_est_socket_io}

-- Whether a socket can be made: there is memory, and the object yielded converts to a mask that is
-- not negative, or to a negative number without an exception.
abbrev pub can_make : Bool → Config → Bool
can_make memory config =
    memory && (elim config.event_mask [ pos n ↦ true | negsuc n ↦ not config.error ])

-- A socket is made where there is memory for it and the object that the protocol's first step yields
-- converts to a mask without an error, and it then holds one reference to its protocol; else none is
-- made, and no reference is held. With memory for the socket the object yielded is dropped exactly
-- once, and without it never. (The object yielded is not the protocol itself.)
pub est_socket_new-references :
    (protocol socket : ℕ) (memory : Bool) (config : Config)
    → config.object ≢ protocol
    → let (made, calls) = est_socket_new protocol socket memory (some config) in
      ((can_make memory config ≡ false)
          × (made ≡ none)
          × (count (is_incref protocol) calls ≡ count (is_decref protocol) calls)
        ⊎ (can_make memory config ≡ true)
          × (made ≡ some (record { protocol = protocol; fd = socket }))
          × (count (is_incref protocol) calls ≡ count (is_decref protocol) calls + 1))
      × (count (is_decref config.object) calls ≡ (if memory then 1 else 0))
unfolding est_socket_new count is_incref is_decref
est_socket_new-references protocol socket memory config ne = (ground arith, ground arith)

-- Where the protocol's first step fails, or yields no valid mask, the memory of the socket is lost:
-- it was taken, and is neither returned nor freed.
est_socket_new-leaks :
    (protocol socket : ℕ) (config : Option Config)
    → (est_socket_new protocol socket true config).0 ≡ none
    → (count is_malloc (est_socket_new protocol socket true config).1 ≡ 1)
      × (count is_free (est_socket_new protocol socket true config).1 ≡ 0)
unfolding est_socket_new count is_malloc is_free
est_socket_new-leaks protocol socket config h = ground arith

-- Made with the interpreter lock held, a socket leaves it held; a step of the protocol on an I/O
-- event takes the lock and gives it back, whatever was read and whatever the protocol yields.
pub est_socket-gil :
    (protocol socket : ℕ) (memory : Bool) (config : Option Config) (this : EstSocket)
    (revents : Revents) (size_read : ℤ)
    → (gil_after true (est_socket_new protocol socket memory config).1 ≡ some true)
      × (gil_after false (on_est_socket_io this revents size_read config) ≡ some false)
unfolding est_socket_new on_est_socket_io gil_after
est_socket-gil protocol socket memory config this revents size_read = (ground arith, ground arith)
