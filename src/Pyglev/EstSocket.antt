-- ===== src/Pyglev/EstSocket.antt =====
-- The established sockets of pyglev/pyglev/core/estsock.c: a connection whose protocol is a Python
-- generator that says at each step which events it waits for.
pub mod Laws
use striga2_pocs.Base.{
  ℕ, zero, suc, Bool, true, false, Option, none, some, List, [], ◌∷◌, ◌++◌, if◌then◌else◌, ℤ, pos,
  negsuc,
}
use striga2_pocs.Calls.{
  Call, gil_restore, gil_save, py_api, py_call, py_incref, py_decref, io_init, io_set, io_start,
  io_stop, malloc, free, log, read,
}

-- `struct est_socket`; the watcher is known by its descriptor.
pub record EstSocket : Type 0 where
  pub protocol : ℕ
  pub fd : ℕ

-- What a step of the protocol yields: an object, and what `PyLong_AsLong` makes of it, with whether
-- an error is set afterwards.
pub record Config : Type 0 where
  pub object : ℕ
  pub event_mask : ℤ
  pub error : Bool

abbrev is_negative : ℤ → Bool
is_negative (pos n) = false
is_negative (negsuc n) = true

-- The result, and the calls; `none` is a step that yields nothing.
pub est_socket_preconfig : EstSocket → Option Config → Bool × List Call
est_socket_preconfig this none = (false, log ∷ [])
est_socket_preconfig this (some config) =
    if is_negative config.event_mask
    then (if config.error
        then (false, py_api ∷ py_api ∷ [])
        else (true, py_api ∷ py_api ∷ io_stop this.fd ∷ io_set this.fd ∷ io_start this.fd ∷ []))
    else (true, py_api ∷ io_stop this.fd ∷ io_set this.fd ∷ io_start this.fd ∷ [])

-- `memory` says whether `malloc` gave any, and `config` is what the first step of the protocol
-- yields.
unfoldable pub est_socket_new : ℕ → ℕ → Bool → Option Config → Option EstSocket × List Call
unfolding est_socket_preconfig
est_socket_new protocol socket false config = (none, malloc ∷ py_api ∷ [])
est_socket_new protocol socket true none = (
  none,
  malloc ∷ py_incref protocol ∷ io_init socket ∷ py_call protocol ∷ py_decref protocol ∷ [],
)
est_socket_new protocol socket true (some config) =
    let this : EstSocket = record { protocol = protocol; fd = socket } in
    let (res, calls) = est_socket_preconfig this (some config) in
    let made = malloc ∷ py_incref protocol ∷ io_init socket ∷ py_call protocol ∷ [] in
    if res
    then (some this, made ++ (calls ++ py_decref config.object ∷ []))
    else (none, made ++ (calls ++ py_decref config.object ∷ py_decref protocol ∷ []))

-- `active` is what `ev_is_active` says of the watcher.
pub est_socket_delete : EstSocket → Bool → List Call
est_socket_delete this active =
    (if active then log ∷ [] else []) ++ py_decref this.protocol ∷ free ∷ log ∷ []

-- `config` is what the protocol yields when it is sent the size.
pub on_est_socket_read : EstSocket → Option Config → List Call
unfolding est_socket_preconfig
on_est_socket_read this config =
    let (res, calls) = est_socket_preconfig this config in
    gil_restore
    ∷ py_call this.protocol
    ∷ (calls ++ ((if res then [] else py_api ∷ []) ++ (drop_config config ++ gil_save ∷ [])))
  where
    drop_config : Option Config → List Call
    drop_config none = []
    drop_config (some c) = py_decref c.object ∷ []

pub on_est_socket_closed : EstSocket → List Call
on_est_socket_closed this = io_stop this.fd ∷ log ∷ []

-- The bits of `revents` that are tested.
pub record Revents : Type 0 where
  pub is_read : Bool
  pub is_write : Bool
  pub is_error : Bool

-- `size_read` is what `read` returns.
pub on_est_socket_io : EstSocket → Revents → ℤ → Option Config → List Call
unfolding on_est_socket_read on_est_socket_closed
on_est_socket_io this revents size_read config =
    let tail =
      (if revents.is_write then log ∷ [] else []) ++ (if revents.is_error then log ∷ [] else []) in
    if revents.is_read
    then elim size_read [
      | negsuc n ↦ read this.fd ∷ log ∷ []
      | pos size ↦ elim size [
        | zero ↦ read this.fd ∷ on_est_socket_closed this
        | suc n ↦ read this.fd ∷ (on_est_socket_read this config ++ tail)
      ]
    ]
    else tail
