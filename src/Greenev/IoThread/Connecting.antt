-- ===== src/Greenev/IoThread/Connecting.antt =====
-- `io_thread_listen` and `io_thread_connect` of greenev/iothread.c, which run in another thread,
-- prepare sockets and hand them to the I/O thread through its queue.
pub mod Listen
pub mod Connect
use striga2_pocs.Base.{
  ℕ, zero, suc, ◌+◌, ◌-◌, ◌≡◌, refl, sym, ◌∙◌, subst, ap, ap₂, ◌⊎◌, inl, inr, Bool, true, false,
  not, Option, none, some, List, [], ◌∷◌, ◌++◌, append-nil, append_assoc, map, length, arith,
  Bool-cases, Option-cases, if◌then◌else◌, get_elem?,
}
use striga2_pocs.Calls.{
  Call, log, malloc, io_init, close, resolve, resolved_free, name_info, opened, set_option, bind,
  listen, connect, opens, closes, opens-append, closes-append, count, is_log, Descriptors,
  Descriptors-append, close_all-Descriptors, count-append,
}
use striga2_pocs.Fifo.{admit, admit-nil}
use striga2_pocs.Greenev.Cmd.{Cmd}
use striga2_pocs.Greenev.CmdQEv.{WatcherCmdQ, watcher_cmd_q_put, put_all}
use striga2_pocs.Greenev.CmdQEv.Laws.{put-Descriptors, put-logs_nothing}
use striga2_pocs.Greenev.CmdQEv.Drain.{Keeps, put_all-Keeps}
use striga2_pocs.Greenev.IoThread.{SockObj, iot_cmd_io_thread_listen, iot_cmd_io_thread_establish}

-- One resolved address: its fields, what the system answers for it, and where the object for it is
-- put by `malloc`. `succeeds` is the answer of `listen`, or of `connect`.
pub record Address : Type 0 where
  pub domain : ℕ
  pub type : ℕ
  pub protocol : ℕ
  pub sockaddr : ℕ
  pub named : Bool
  pub socket : Option ℕ
  pub option_set : Bool
  pub bound : Bool
  pub succeeds : Bool
  pub place : ℕ

abbrev pub new_sockobj : Address → ℕ → SockObj
new_sockobj a fd = record {
  address = a.place;
  fd = fd;
  domain = a.domain;
  type = a.type;
  protocol = a.protocol;
  sockaddr = a.sockaddr;
}

abbrev pub naming : Address → List Call
naming a = if a.named then name_info ∷ [] else name_info ∷ log ∷ []

-- One turn of the loop that opens the sockets: the descriptor, whether the turn succeeds, and the
-- calls.
unfoldable pub open_socket : Address → Option ℕ × Bool × List Call
open_socket a = elim a.socket [
  | none ↦ (none, false, naming a ++ log ∷ [])
  | some fd ↦
      let made = naming a ++ opened fd ∷ set_option fd ∷ [] in
      if a.option_set
      then (if a.bound
          then (if a.succeeds
              then (some fd, true, made ++ bind fd ∷ listen fd ∷ [])
              else (some fd, false, made ++ bind fd ∷ listen fd ∷ log ∷ []))
          else (some fd, false, made ++ bind fd ∷ log ∷ []))
      else (some fd, false, made ++ log ∷ [])
]

abbrev pub to_list : Option ℕ → List ℕ
to_list none = []
to_list (some fd) = fd ∷ []

-- The loop, up to the first failure: the descriptors in `listen_socket` when it is left.
unfoldable pub open_sockets : List Address → List ℕ × Bool × List Call
unfolding open_socket
open_sockets [] = ([], true, [])
open_sockets (a ∷ more) =
    let (fd, done, calls) = open_socket a in
    let (fds, all_done, later) = open_sockets more in
    if done then (to_list fd ++ fds, all_done, calls ++ later) else (to_list fd, false, calls)

-- The loop that makes the objects and queues a command for each; no result of the put is looked at.
unfoldable pub queue_sockets :
    WatcherCmdQ → List Address → List ℕ → WatcherCmdQ × List SockObj × List Call
queue_sockets q [] fds = (q, [], [])
queue_sockets q (a ∷ more) [] = (q, [], [])
queue_sockets q (a ∷ more) (fd ∷ fds) =
    let (q', _, put) = watcher_cmd_q_put q iot_cmd_io_thread_listen a.place in
    let (q'', objects, later) = queue_sockets q' more fds in
    (q'', new_sockobj a fd ∷ objects, malloc ∷ io_init fd ∷ (put ++ later))

-- `resolved` is what `getaddrinfo` answers, `none` for an error.
unfoldable pub io_thread_listen :
    WatcherCmdQ → Option (List Address) → WatcherCmdQ × List SockObj × List Call
unfolding open_sockets queue_sockets
io_thread_listen q none = (q, [], resolve ∷ log ∷ [])
io_thread_listen q (some addresses) =
    let (fds, done, calls) = open_sockets addresses in
    if done
    then (let (q', objects, more) = queue_sockets q addresses fds in
        (q', objects, resolve ∷ (calls ++ (more ++ resolved_free ∷ []))))
    else (q, [], resolve ∷ (calls ++ resolved_free ∷ log ∷ map close fds))

-- The loop of `io_thread_connect`: the queue, the object made for the first address that can be
-- connected to, whether `connect_errno` is set, and the calls.
unfoldable pub try_addresses :
    WatcherCmdQ → List Address → WatcherCmdQ × Option SockObj × Bool × List Call
try_addresses q [] = (q, none, false, [])
try_addresses q (a ∷ more) =
    let (q', made, failed, later) = try_addresses q more in
    elim a.socket [
      | none ↦ (q', made, true, naming a ++ later)
      | some fd ↦
          let opening = naming a ++ opened fd ∷ set_option fd ∷ [] in
          if a.option_set
          then (if a.succeeds
              then (let (q₁, _, put) = watcher_cmd_q_put q iot_cmd_io_thread_establish a.place in
                  (
                    q₁,
                    some (new_sockobj a fd),
                    false,
                    opening ++ connect fd ∷ malloc ∷ io_init fd ∷ put,
                  ))
              else (q', made, true, opening ++ connect fd ∷ close fd ∷ later))
          else (q', made, true, opening ++ close fd ∷ later)
    ]

unfoldable pub io_thread_connect :
    WatcherCmdQ → Option (List Address) → WatcherCmdQ × Option SockObj × List Call
unfolding try_addresses
io_thread_connect q none = (q, none, resolve ∷ log ∷ [])
io_thread_connect q (some addresses) =
    let (q', made, failed, calls) = try_addresses q addresses in
    (q', made, resolve ∷ (calls ++ ((if failed then log ∷ [] else []) ++ resolved_free ∷ [])))
