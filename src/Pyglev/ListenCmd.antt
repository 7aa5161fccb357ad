-- ===== src/Pyglev/ListenCmd.antt =====
-- The listen command of pyglev/pyglev/core/lstncmd.c: it resolves an address, listens on every
-- address found, and hands each accepted connection to the application's protocol.
pub mod Opening
pub mod Listening
pub mod Accepting
pub mod Collecting
use Prim.Native.String.{String}
use text.Mathlib.Text.{◌==◌ as str_eq}
use striga2_pocs.Base.{
  ℕ, zero, suc, Bool, true, false, Option, none, some, List, [], ◌∷◌, ◌++◌, map, length,
  if◌then◌else◌,
}
use striga2_pocs.Calls.{
  Call, gil_restore, gil_save, py_api, py_call, py_incref, py_decref, io_init, io_start, io_stop,
  malloc, free, log, resolve, resolved_free, name_info, opened, accepted, set_option, bind, listen,
  close,
}
use striga2_pocs.Pyglev.Errors.{ErrorType, event_loop_error}
use striga2_pocs.Pyglev.EstSocket.{EstSocket, Config, Revents, est_socket_new}

-- `enum listen_cmd_statuses` of pyglev/pyglev/core/lstncmd.h
pub data Status : Type 0 where
  init resolving listening closed : Status

-- `struct listen_cmd`. A watcher is known by its descriptor; `next` is the place of the next
-- command of the event loop, 0 for none.
pub record ListenCmd : Type 0 where
  pub next : ℕ
  pub on_accept : Option ℕ
  pub host : Option String
  pub port : String
  pub backlog : ℕ
  pub status : Status
  pub watchers_count : ℕ
  pub watchers : Option (List ℕ)

-- The arguments as `PyArg_ParseTupleAndKeywords` reads them, with 20 for a `backlog` not given.
pub record Arguments : Type 0 where
  pub host : String
  pub port : String
  pub on_accept : Option ℕ
  pub backlog : Option ℕ

-- `arguments` is `none` where they do not parse, and `allocated` says whether `tp_alloc` gave memory,
-- which it fills with zeros.
pub listen_cmd_ctor : Option Arguments → Bool → Option ListenCmd × List Call
listen_cmd_ctor none allocated = (none, py_api ∷ [])
listen_cmd_ctor (some args) false = (none, py_api ∷ py_api ∷ [])
listen_cmd_ctor (some args) true = (
  some (record {
    next = 0;
    on_accept = args.on_accept;
    host = if str_eq args.host "*" then none else some args.host;
    port = args.port;
    backlog = elim args.backlog [ none ↦ 20 | some n ↦ n ];
    status = Status.init;
    watchers_count = 0;
    watchers = none;
  }),
  py_api ∷ py_api ∷ (elim args.on_accept [ none ↦ [] | some o ↦ py_incref o ∷ [] ]),
)

-- A `log` for each watcher that is still active when the command goes. `active` is what
-- `ev_is_active` says of each.
abbrev warn_active : List Bool → List Call
warn_active [] = []
warn_active (a ∷ as_) = (if a then log ∷ [] else []) ++ warn_active as_

abbrev pub drop_object : Option ℕ → List Call
drop_object none = []
drop_object (some o) = py_decref o ∷ []

-- `listen_cmd_tp_clear`, by which the garbage collector takes a command apart.
pub listen_cmd_tp_clear : ListenCmd → ListenCmd × List Call
listen_cmd_tp_clear self = (record self { on_accept = none }, drop_object self.on_accept)

-- `listen_cmd_tp_traverse`: the objects visited.
pub listen_cmd_tp_traverse : ListenCmd → List ℕ
listen_cmd_tp_traverse self = elim self.on_accept [ none ↦ [] | some o ↦ o ∷ [] ]

pub listen_cmd_dtor : ListenCmd → List Bool → List Call
unfolding listen_cmd_tp_clear
listen_cmd_dtor self active =
    (elim self.watchers [ none ↦ [] | some fds ↦ warn_active active ++ free ∷ [] ])
    ++ ((elim self.host [ none ↦ [] | some h ↦ free ∷ [] ])
        ++ free ∷ ((listen_cmd_tp_clear self).1 ++ py_api ∷ log ∷ []))

-- What the system answers for one resolved address: whether its name is found, the descriptor of
-- the new socket, and whether the option, the binding and the listening succeed.
pub record Address : Type 0 where
  pub named : Bool
  pub socket : Option ℕ
  pub option_set : Bool
  pub bound : Bool
  pub listened : Bool

-- How the application answers to the errors that are reported: its callback, and what the callback
-- returns.
pub record Reporter : Type 0 where
  pub on_error : Option ℕ
  pub result : Option ℕ

abbrev pub report : Reporter → ErrorType → List Call
report r type = event_loop_error r.on_error type r.result

-- One turn of the loop that opens the sockets: the descriptor if there is one, whether the turn
-- succeeds, and the calls.
pub open_socket : Reporter → Address → Option ℕ × Bool × List Call
open_socket r a =
    let named = if a.named then name_info ∷ [] else name_info ∷ report r ErrorType.eai in
    elim a.socket [
      | none ↦ (none, false, named ++ report r ErrorType.errno)
      | some fd ↦
          let made = named ++ opened fd ∷ set_option fd ∷ [] in
          if a.option_set
          then (if a.bound
              then (if a.listened
                  then (some fd, true, made ++ bind fd ∷ listen fd ∷ [])
                  else (some fd, false, made ++ bind fd ∷ listen fd ∷ report r ErrorType.errno))
              else (some fd, false, made ++ bind fd ∷ report r ErrorType.errno))
          else (some fd, false, made ++ report r ErrorType.errno)
    ]

abbrev pub to_list : Option ℕ → List ℕ
to_list none = []
to_list (some fd) = fd ∷ []

-- The loop, up to the first failure: the descriptors that are in `listen_socket` when it is left.
pub open_sockets : Reporter → List Address → List ℕ × Bool × List Call
unfolding open_socket
open_sockets r [] = ([], true, [])
open_sockets r (a ∷ more) =
    let (fd, done, calls) = open_socket r a in
    let (fds, all_done, later) = open_sockets r more in
    if done then (to_list fd ++ fds, all_done, calls ++ later) else (to_list fd, false, calls)

-- `ev_io_init` and `ev_io_start` for each.
pub start_watchers : List ℕ → List Call
start_watchers [] = []
start_watchers (fd ∷ fds) = io_init fd ∷ io_start fd ∷ start_watchers fds

-- `addresses` is what `getaddrinfo` answers, `none` for an error. `calloc` is taken to give the memory
-- for the watchers; the source does not look.
pub listen_cmd_xschedule_01 : ListenCmd → Reporter → Option (List Address) → ListenCmd × List Call
unfolding open_sockets start_watchers
listen_cmd_xschedule_01 self r none =
    (record self { status = Status.resolving }, resolve ∷ report r ErrorType.eai)
listen_cmd_xschedule_01 self r (some addresses) =
    let (fds, done, calls) = open_sockets r addresses in
    if done
    then (
      record self {
        status = Status.listening;
        watchers_count = length addresses;
        watchers = some fds;
      },
      resolve ∷ (calls ++ malloc ∷ (start_watchers fds ++ resolved_free ∷ [])),
    )
    else (
      record self { status = Status.resolving; watchers_count = length addresses },
      resolve ∷ (calls ++ resolved_free ∷ map close fds),
    )

-- `ev_io_stop` and `close` for each; `errors` says which `close` fails. The source counts to
-- `watchers_count`, which is the number of the watchers while the command is LISTENING.
pub stop_watchers : List ℕ → (ℕ → Bool) → List Call
stop_watchers [] errors = []
stop_watchers (fd ∷ fds) errors =
    io_stop fd ∷ close fd ∷ ((if errors fd then log ∷ [] else []) ++ stop_watchers fds errors)

abbrev close_watchers : ListenCmd → (ℕ → Bool) → List Call
close_watchers self errors = elim self.watchers [ none ↦ [] | some fds ↦ stop_watchers fds errors ]

pub listen_cmd_close : ListenCmd → (ℕ → Bool) → ListenCmd × List Call
unfolding stop_watchers
listen_cmd_close self errors =
    let done = record self { status = Status.closed } in
    elim self.status [
      | Status.init ↦ (done, [])
      | Status.resolving ↦ (done, [])
      | Status.listening ↦ (done, close_watchers self errors)
      | Status.closed ↦ (done, log ∷ close_watchers self errors)
    ]

-- What `on_accept` returns: an object, whether it counts as false or is `None`, and whether it is a
-- generator.
pub record Protocol : Type 0 where
  pub object : ℕ
  pub is_none : Bool
  pub is_generator : Bool

-- The answers for one connection: its descriptor, what `on_accept` returns, and what
-- `est_socket_new` meets.
pub record Connection : Type 0 where
  pub client : Option ℕ
  pub protocol : Option Protocol
  pub memory : Bool
  pub config : Option Config

abbrev call_protocol : Option ℕ → List Call
call_protocol none = py_api ∷ []
call_protocol (some f) = py_call f ∷ []

-- The sockets established before, and after.
pub on_listen_socket_accept :
    ListenCmd → Reporter → Connection → List EstSocket → List EstSocket × List Call
unfolding est_socket_new
on_listen_socket_accept self r c established = elim c.client [
  | none ↦ (established, report r ErrorType.errno)
  | some fd ↦ elim self.status [
    | Status.listening ↦
        let called = accepted fd ∷ gil_restore ∷ call_protocol self.on_accept in
        elim c.protocol [
          | none ↦ (established, called ++ py_api ∷ gil_save ∷ close fd ∷ [])
          | some protocol ↦
              let refused = py_decref protocol.object ∷ gil_save ∷ close fd ∷ [] in
              if protocol.is_none
              then (established, called ++ py_api ∷ refused)
              else (if protocol.is_generator
                  then (let (made, calls) = est_socket_new protocol.object fd c.memory c.config in
                      elim made [
                        | none ↦ (established, called ++ py_api ∷ (calls ++ py_api ∷ refused))
                        | some est_socket ↦ (
                          est_socket ∷ established,
                          called ++ py_api ∷ (calls ++ py_decref protocol.object ∷ gil_save ∷ []),
                        )
                      ])
                  else (established, called ++ py_api ∷ py_api ∷ py_api ∷ py_api ∷ refused))
        ]
    | _ ↦ (established, accepted fd ∷ (report r ErrorType.gener ++ close fd ∷ []))
  ]
]

pub on_listen_socket_io :
    ListenCmd → Reporter → Revents → Connection → List EstSocket → List EstSocket × List Call
unfolding on_listen_socket_accept
on_listen_socket_io self r revents c established =
    if revents.is_error
    then (established, report r ErrorType.gener)
    else (if revents.is_read
        then on_listen_socket_accept self r c established
        else (established, []))
