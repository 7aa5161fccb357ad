-- ===== src/Pyglev/ListenCmd/Accepting.antt =====
-- What becomes of a connection that a listen command of pyglev/pyglev/core/lstncmd.c accepts.
use striga2_pocs.Base.{
  ℕ, ◌+◌, ◌≡◌, ◌≢◌, ◌⊎◌, false, Option, none, some, List, [], ◌∷◌, arith, length,
}
use striga2_pocs.Calls.{gil_after, opens, closes, count, is_incref, is_decref}
use striga2_pocs.Pyglev.Errors.{event_loop_error}
use striga2_pocs.Pyglev.EstSocket.{EstSocket, Config, Revents, est_socket_new}
use striga2_pocs.Pyglev.ListenCmd.{
  ListenCmd, Status, Reporter, Protocol, Connection, on_listen_socket_accept, on_listen_socket_io,
}

-- Whatever the state of the command and whatever the system and the application answer, the handler
-- of a listening socket leaves the interpreter lock free and uses the interpreter only under it.
pub listen_socket-gil :
    (self : ListenCmd) (r : Reporter) (revents : Revents) (c : Connection)
    (established : List EstSocket)
    → gil_after false (on_listen_socket_io self r revents c established).1 ≡ some false
unfolding on_listen_socket_io on_listen_socket_accept event_loop_error gil_after
listen_socket-gil self r revents c established = ground arith

-- The protocol object of a connection, where there is one.
abbrev object_of : Option Protocol → ℕ
object_of none = 0
object_of (some protocol) = protocol.object

-- A connection that is accepted is never lost: either its descriptor is closed, once, and the list
-- of established sockets stays as it was, or the descriptor stays open in one new socket, with the
-- protocol that the application returned, at the front of the list.
pub accept-descriptor :
    (self : ListenCmd) (r : Reporter) (c : Connection) (established : List EstSocket) (fd : ℕ)
    → c.client ≡ some fd
    → let (after, calls) = on_listen_socket_accept self r c established in
      (opens calls ≡ fd ∷ [])
      × ((closes calls ≡ fd ∷ []) × (after ≡ established)
          ⊎ (closes calls ≡ [])
            × (after ≡ record { protocol = object_of c.protocol; fd = fd } ∷ established))
unfolding on_listen_socket_accept event_loop_error est_socket_new opens closes
accept-descriptor self r c established fd e = ground arith

abbrev pub Differs : Option Config → ℕ → Type 0
Differs none o = Unit
Differs (some config) o = config.object ≢ o

-- The reference to the protocol that `on_accept` returns is dropped on every path, and a socket
-- that is added holds one more of its own; so the references dropped and the sockets added come to
-- one more than the references taken. What the protocol yields is another object.
pub accept-references :
    (self : ListenCmd) (r : Reporter) (c : Connection) (established : List EstSocket)
    (protocol : Protocol) (fd : ℕ)
    → self.status ≡ Status.listening
    → c.client ≡ some fd
    → c.protocol ≡ some protocol
    → Differs c.config protocol.object
    → let (after, calls) = on_listen_socket_accept self r c established in
      count (is_decref protocol.object) calls + length after
      ≡ count (is_incref protocol.object) calls + 1 + length established
unfolding on_listen_socket_accept est_socket_new count is_incref is_decref
accept-references self r c established protocol fd s a p d = ground arith
