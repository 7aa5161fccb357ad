-- ===== src/Tests/PyglevSockets.antt =====
-- Listening, accepting and established sockets of pyglev/pyglev/core, on small inputs.
use striga2_pocs.Base.{
  ℕ, ◌+◌, ◌≡◌, refl, ◌⊎◌, Bool, true, false, Option, none, some, List, [], ◌∷◌, ◌++◌, length, arith,
  pos,
}
use striga2_pocs.Calls.{opens, closes, gil_after, count, is_incref, is_decref}
use striga2_pocs.Pyglev.EstSocket.{Config, Revents, est_socket_new, on_est_socket_io}
use striga2_pocs.Pyglev.EstSocket.Laws.{can_make, est_socket_new-references, est_socket-gil}
use striga2_pocs.Pyglev.ListenCmd.{
  ListenCmd, Status, Address, Reporter, Connection, Protocol, listen_cmd_xschedule_01,
  listen_cmd_close, on_listen_socket_accept,
}
use striga2_pocs.Pyglev.ListenCmd.Opening.{resolved_listen, addresses_of}
use striga2_pocs.Pyglev.ListenCmd.Listening.{xschedule_01-descriptors, close-xschedule_01}
use striga2_pocs.Pyglev.ListenCmd.Accepting.{accept-descriptor, accept-references}

abbrev fresh : ListenCmd
fresh = record {
  next = 0;
  on_accept = some 8;
  host = none;
  port = "8080";
  backlog = 20;
  status = Status.init;
  watchers_count = 0;
  watchers = none;
}

abbrev listening_on : List ℕ → ListenCmd
listening_on fds = record fresh {
  status = Status.listening;
  watchers_count = length fds;
  watchers = some fds;
}

abbrev silent : Reporter
silent = record { on_error = none; result = none }

abbrev answer : ℕ → Bool → Address
answer fd bound = record {
  named = true;
  socket = some fd;
  option_set = true;
  bound = bound;
  listened = true;
}

-- The second of two addresses cannot be bound.
abbrev half_bound : Option (List Address)
half_bound = some (answer 3 true ∷ answer 4 false ∷ [])

abbrev never : ℕ → Bool
never fd = false

abbrev generator : Protocol
generator = record { object = 12; is_none = false; is_generator = true }

abbrev yielded : Config
yielded = record { object = 13; event_mask = pos 1; error = false }

abbrev arriving : Connection
arriving = record {
  client = some 5;
  protocol = some generator;
  memory = true;
  config = some yielded;
}

abbrev readable : Revents
readable = record { is_read = true; is_write = false; is_error = false }

xschedule_01-descriptors_example :
    let (self', calls) = listen_cmd_xschedule_01 fresh silent half_bound in
    (gil_after false calls ≡ some false)
    × ((resolved_listen half_bound ≡ true)
          × (self'.status ≡ Status.listening)
          × (self'.watchers ≡ some (opens calls))
          × (self'.watchers_count ≡ length (addresses_of half_bound))
          × (length (opens calls) ≡ length (addresses_of half_bound))
          × (closes calls ≡ [])
        ⊎ (resolved_listen half_bound ≡ false)
          × (self'.status ≡ Status.resolving)
          × (self'.watchers ≡ none)
          × (closes calls ≡ opens calls))
xschedule_01-descriptors_example = xschedule_01-descriptors fresh silent half_bound

close-xschedule_01_example :
    let (self', calls) = listen_cmd_xschedule_01 fresh silent half_bound in
    let (self'', more) = listen_cmd_close self' never in
    (self''.status ≡ Status.closed) × (closes (calls ++ more) ≡ opens calls)
close-xschedule_01_example = close-xschedule_01 fresh silent half_bound never

accept-descriptor_example :
    let (after, calls) = on_listen_socket_accept (listening_on (3 ∷ [])) silent arriving [] in
    (opens calls ≡ 5 ∷ [])
    × ((closes calls ≡ 5 ∷ []) × (after ≡ [])
        ⊎ (closes calls ≡ []) × (after ≡ record { protocol = 12; fd = 5 } ∷ []))
accept-descriptor_example = accept-descriptor (listening_on (3 ∷ [])) silent arriving [] 5 refl

accept-references_example :
    let (after, calls) = on_listen_socket_accept (listening_on (3 ∷ [])) silent arriving [] in
    count (is_decref 12) calls + length after ≡ count (is_incref 12) calls + 1 + 0
accept-references_example =
    accept-references (listening_on (3 ∷ [])) silent arriving [] generator 5 refl refl refl
      (λ e. omega arith)

est_socket_new-references_example :
    let (made, calls) = est_socket_new 12 5 true (some yielded) in
    ((can_make true yielded ≡ false)
        × (made ≡ none)
        × (count (is_incref 12) calls ≡ count (is_decref 12) calls)
      ⊎ (can_make true yielded ≡ true)
        × (made ≡ some (record { protocol = 12; fd = 5 }))
        × (count (is_incref 12) calls ≡ count (is_decref 12) calls + 1))
    × (count (is_decref 13) calls ≡ 1)
est_socket_new-references_example = est_socket_new-references 12 5 true yielded (λ e. omega arith)

no_socket : (est_socket_new 12 5 true none).0 ≡ none
unfolding est_socket_new
no_socket = refl

est_socket-gil_example :
    (gil_after true (est_socket_new 12 5 true (some yielded)).1 ≡ some true)
    × (gil_after false
          (on_est_socket_io (record { protocol = 12; fd = 5 }) readable (pos 3) (some yielded))
        ≡ some false)
est_socket-gil_example =
    est_socket-gil 12 5 true (some yielded) (record { protocol = 12; fd = 5 }) readable (pos 3)
