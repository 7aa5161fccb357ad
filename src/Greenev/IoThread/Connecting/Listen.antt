-- ===== src/Greenev/IoThread/Connecting/Listen.antt =====
-- What `io_thread_listen` of greenev/iothread.c does with descriptors, objects and commands.
use striga2_pocs.Base.{
  ℕ, ◌-◌, ◌≡◌, refl, sym, ◌∙◌, ap, ◌⊎◌, inl, inr, true, Option, none, some, List, [], ◌∷◌,
  append-nil, map, length, length-map, arith, Bool-cases, Bool, false, ◌&&◌,
}
use striga2_pocs.Calls.{
  log, resolved_free, opens, closes, Descriptors, Descriptors-append, close_all-Descriptors,
}
use striga2_pocs.Fifo.{admit, admit-nil}
use striga2_pocs.Greenev.Cmd.{Cmd}
use striga2_pocs.Greenev.CmdQEv.{WatcherCmdQ, watcher_cmd_q_put, put_all}
use striga2_pocs.Greenev.CmdQEv.Laws.{put-Descriptors}
use striga2_pocs.Greenev.CmdQEv.Drain.{Keeps, put_all-Keeps}
use striga2_pocs.Greenev.IoThread.{SockObj, iot_cmd_io_thread_listen}
use striga2_pocs.Greenev.IoThread.Connecting.{
  Address, to_list, open_socket, open_sockets, queue_sockets, io_thread_listen,
}

open_socket-Descriptors :
    (a : Address) → Descriptors (open_socket a).2 (to_list (open_socket a).0) []
unfolding open_socket opens closes
open_socket-Descriptors a = ground arith

pub open_sockets-Descriptors :
    (more : List Address) → Descriptors (open_sockets more).2 (open_sockets more).0 []
unfolding open_sockets opens closes
open_sockets-Descriptors [] = record { opening = refl; closing = refl }
open_sockets-Descriptors (a ∷ more) = elim (Bool-cases (open_socket a).1) [
  | inl e ↦ rw e (Descriptors-append (open_socket-Descriptors a) (open_sockets-Descriptors more))
  | inr e ↦ rw e (open_socket-Descriptors a)
]

-- Whether the system lets a socket listen on an address.
abbrev can_listen : Address → Bool
can_listen a = elim a.socket [ none ↦ false | some fd ↦ a.option_set && a.bound && a.succeeds ]

pub all_listen : List Address → Bool
all_listen [] = true
all_listen (a ∷ more) = can_listen a && all_listen more

-- Whether the name is resolved, and a socket can listen on each address.
abbrev pub resolved_listen : Option (List Address) → Bool
resolved_listen none = false
resolved_listen (some addresses) = all_listen addresses

open_socket-can_listen : (a : Address) → (open_socket a).1 ≡ can_listen a
unfolding open_socket
open_socket-can_listen a = ground arith

pub open_sockets-all_listen :
    (addresses : List Address) → (open_sockets addresses).1 ≡ all_listen addresses
unfolding open_sockets all_listen
open_sockets-all_listen [] = refl
open_sockets-all_listen (a ∷ more) = elim (Bool-cases (open_socket a).1) [
  | inl e ↦ rw (e, sym (open_socket-can_listen a) ∙ e) (open_sockets-all_listen more)
  | inr e ↦ rw (e, sym (open_socket-can_listen a) ∙ e) refl
]

-- Where every turn succeeds there is a descriptor for each address.
pub length-open_sockets :
    (addresses : List Address)
    → (open_sockets addresses).1 ≡ true
    → length (open_sockets addresses).0 ≡ length addresses
unfolding open_sockets open_socket
length-open_sockets [] h = refl
length-open_sockets (a ∷ more) h = ground (arith, length-open_sockets more)

-- The commands for the objects that `io_thread_listen` makes.
abbrev pub commands : List SockObj → List Cmd
commands = map (λ s. record { id = iot_cmd_io_thread_listen; arg = s.address })

queue_sockets-objects :
    (q : WatcherCmdQ) (addresses : List Address) (fds : List ℕ)
    → length fds ≡ length addresses
    → (map (λ s. s.fd) (queue_sockets q addresses fds).1 ≡ fds)
      × Descriptors (queue_sockets q addresses fds).2 [] []
      × ((queue_sockets q addresses fds).0 ≡ put_all q (commands (queue_sockets q addresses fds).1))
unfolding queue_sockets put_all opens closes
queue_sockets-objects q [] [] e = (refl, record { opening = refl; closing = refl }, refl)
queue_sockets-objects q [] (fd ∷ fds) e = absurd (omega arith)
queue_sockets-objects q (a ∷ more) [] e = absurd (omega arith)
queue_sockets-objects q (a ∷ more) (fd ∷ fds) e =
    let q' = (watcher_cmd_q_put q iot_cmd_io_thread_listen a.place).0 in
    let (f, d, p) = queue_sockets-objects q' more fds (omega arith) in
    let d' = Descriptors-append (put-Descriptors q iot_cmd_io_thread_listen a.place) d in
    (ap (◌∷◌ fd) f, record { opening = d'.opening; closing = d'.closing }, p)

-- Where the name is not resolved, or a socket cannot listen on one of the addresses, every descriptor
-- that was opened is closed, and nothing is made or queued. Else none is closed: there is one object
-- for each address, the descriptors opened stand in them in order, and the queue is as after one
-- LISTEN command for each object.
pub listen-descriptors :
    (q : WatcherCmdQ) (resolved : Option (List Address))
    → let (q', objects, calls) = io_thread_listen q resolved in
      ((resolved_listen resolved ≡ false) × (objects ≡ []) × (q' ≡ q) × (closes calls ≡ opens calls)
        ⊎ (addresses : List Address) × (resolved ≡ some addresses)
          × (all_listen addresses ≡ true)
          × (length objects ≡ length addresses)
          × (map (λ s. s.fd) objects ≡ opens calls)
          × (closes calls ≡ [])
          × (q' ≡ put_all q (commands objects)))
unfolding io_thread_listen opens closes
listen-descriptors q none = inl (refl, refl, refl, refl)
listen-descriptors q (some addresses) =
    let d = open_sockets-Descriptors addresses in
    let as_told = sym (open_sockets-all_listen addresses) in
    elim (Bool-cases (open_sockets addresses).1) [
      | inl done ↦
          let (f, d', p) =
            queue_sockets-objects q addresses (open_sockets addresses).0
              (length-open_sockets addresses done) in
          let all = Descriptors-append d (Descriptors-append d' freed) in
          rw done (
            inr (
              addresses,
              refl,
              as_told ∙ done,
              sym (length-map (λ s. s.fd) _) ∙ ap length f ∙ length-open_sockets addresses done,
              f ∙ sym (all.opening ∙ append-nil (open_sockets addresses).0),
              all.closing,
              p,
            ))
      | inr failed ↦
          let all =
            Descriptors-append d (
              Descriptors-append freed_logged (close_all-Descriptors (open_sockets addresses).0)) in
          rw failed (
            inl (
              as_told ∙ failed,
              refl,
              refl,
              all.closing ∙ sym (all.opening ∙ append-nil (open_sockets addresses).0),
            ))
    ]
  where
    freed : Descriptors (resolved_free ∷ []) [] []
    freed = record { opening = refl; closing = refl }

    freed_logged : Descriptors (resolved_free ∷ log ∷ []) [] []
    freed_logged = record { opening = refl; closing = refl }

-- On a queue that holds `xs`, the commands that find room are queued behind them, in order. The
-- others are dropped, although their sockets stay open.
pub listen-queued :
    (q : WatcherCmdQ) (size callbackarg : ℕ) (xs : List Cmd) (resolved : Option (List Address))
    → Keeps q size callbackarg xs
    → let (q', objects, calls) = io_thread_listen q resolved in
      Keeps q' size callbackarg (admit (size - 1) xs (commands objects))
listen-queued q size callbackarg xs resolved k = elim (listen-descriptors q resolved) [
  | inl (_, none_made, same, _) ↦ rw (none_made, same, admit-nil) k
  | inr (_, _, _, _, _, _, p) ↦ rw p (put_all-Keeps q size callbackarg xs _ k)
]
