-- ===== src/Greenev/IoThread.antt =====
-- The I/O thread of greenev/iothread.c: its two lists of sockets, the commands that it carries out,
-- and what it does on the events of its sockets.
pub mod Connecting
pub mod Sockets
pub mod Reading
pub mod Life
use striga2_pocs.Base.{
  ℕ, zero, suc, ◌+◌, ◌-◌, ◌*◌, ◌/◌, Bool, true, false, Option, none, some, List, [], ◌∷◌, ◌++◌, map,
  ltb, ◌==◌, if◌then◌else◌, ℤ, pos, negsuc,
}
use striga2_pocs.Calls.{
  Call, log, malloc, free, io_init, io_set, io_start, io_stop, close, accepted, read, loop_unref,
  loop_ref, loop_new, mutex_init, async_init,
}
use striga2_pocs.Greenev.Cmd.{Cmd}
use striga2_pocs.Greenev.CmdQEv.{
  WatcherCmdQ, watcher_cmd_q_put, watcher_cmd_q_start, watcher_cmd_q_stop, watcher_cmd_q_delete,
}
use striga2_pocs.Greenev.IoBuffer.{
  IoBuffer, io_buffer_get, io_buffer_put, io_buffer_delete, io_buffer_slot_size, Returned, returned,
  asserted, overrun,
}

-- `struct io_thread_listening_socket` and `struct io_thread_established_socket`, which have the same
-- fields: a node at an address, with the descriptor of its watcher. `next` is its place in a list,
-- and the peer's or own address is `sockaddr`.
pub record SockObj : Type 0 where
  pub address : ℕ
  pub fd : ℕ
  pub domain : ℕ
  pub type : ℕ
  pub protocol : ℕ
  pub sockaddr : ℕ

-- `struct io_thread`, less the thread and the loop. The lists have the node at their head first.
pub record IoThread : Type 0 where
  pub listening : List SockObj
  pub established : List SockObj
  pub cmd_q : WatcherCmdQ
  pub tmp_io_buf : IoBuffer

-- `enum iot_cmd_ids` of greenev/iothread.h
abbrev pub iot_cmd_io_thread_die : ℕ
iot_cmd_io_thread_die = 1

abbrev pub iot_cmd_io_thread_listen : ℕ
iot_cmd_io_thread_listen = 2

abbrev pub iot_cmd_io_thread_establish : ℕ
iot_cmd_io_thread_establish = 3

-- How a handler ends: well, by a failed assert, by a read of freed memory that is no longer what it
-- was, or by a write behind the end of an array.
pub data Ended (A : Type 0) : Type 0 where
  ended : A → List Call → Ended A
  asserted_out : Ended A
  used_after_free : Ended A
  overran : Ended A

-- One of the two loops on DIE. Each node is freed before its `next` is read; `intact` says of an
-- address whether what was there is still to be read after it was freed.
unfoldable pub close_sockets : (ℕ → Bool) → List SockObj → Option (List Call)
close_sockets intact [] = some []
close_sockets intact (s ∷ more) = elim (intact s.address) [
  | false ↦ none
  | true ↦ elim (close_sockets intact more) [
    | none ↦ none
    | some calls ↦ some (close s.fd ∷ io_stop s.fd ∷ free ∷ calls)
  ]
]

-- `_on_iot_cmd`; `memory` holds the socket objects that commands point to.
unfoldable pub on_iot_cmd : (ℕ → SockObj) → (ℕ → Bool) → IoThread → Cmd → Ended IoThread
unfolding close_sockets
on_iot_cmd memory intact this cmd =
    if cmd.id == iot_cmd_io_thread_die
    then (elim (close_sockets intact this.listening) [
      | none ↦ used_after_free
      | some calls ↦ elim (close_sockets intact this.established) [
        | none ↦ used_after_free
        | some more ↦
            ended (record this { listening = []; established = [] })
              (calls ++ (more ++ loop_unref ∷ []))
      ]
    ])
    else (if cmd.id == iot_cmd_io_thread_listen
        then ended (record this { listening = memory cmd.arg ∷ this.listening })
            (io_start (memory cmd.arg).fd ∷ [])
        else (if cmd.id == iot_cmd_io_thread_establish
            then ended (record this { established = memory cmd.arg ∷ this.established })
                (io_set (memory cmd.arg).fd ∷ io_start (memory cmd.arg).fd ∷ [])
            else ended this (log ∷ [])))

-- The loop over the established sockets, up to the node at the address: the list without it, `none`
-- where it is not found.
unfoldable pub unlink : ℕ → List SockObj → Option (List SockObj)
unlink address [] = none
unlink address (s ∷ more) =
    let rest = unlink address more in
    if s.address == address
    then some more
    else (elim rest [ none ↦ none | some more' ↦ some (s ∷ more') ])

-- The first assert compares the socket's thread with this one, `own` saying whether they are one.
unfoldable pub io_thread_sockobj_close : Bool → IoThread → SockObj → Ended IoThread
unfolding unlink
io_thread_sockobj_close own this sockobj =
    if own
    then (elim (unlink sockobj.address this.established) [
      | none ↦ asserted_out
      | some more ↦
          ended (record this { established = more })
            (close sockobj.fd ∷ io_stop sockobj.fd ∷ free ∷ [])
    ])
    else asserted_out

abbrev pub drop {ℓ} : {A : Type ℓ} → ℕ → List A → List A
drop zero xs = xs
drop (suc n) [] = []
drop (suc n) (x ∷ xs) = drop n xs

-- The addresses in `iovec`; `io_buffer_get` reads none outside its array.
abbrev pub bases : List (Option ℕ) → List ℕ
bases [] = []
bases (none ∷ more) = 0 ∷ bases more
bases (some base ∷ more) = base ∷ bases more

-- Slots given back at the end of a handler.
unfoldable pub give_back : IoThread → List Call → List ℕ → Ended IoThread
give_back this calls iovec = elim (io_buffer_put this.tmp_io_buf iovec) [
  | returned buf more ↦ ended (record this { tmp_io_buf = buf }) (calls ++ more)
  | asserted ↦ asserted_out
  | overrun ↦ overran
]

unfoldable pub then_give_back : Ended IoThread → List Call → List ℕ → Ended IoThread
unfolding give_back
then_give_back (ended this more) calls iovec = give_back this (calls ++ more) iovec
then_give_back asserted_out calls iovec = asserted_out
then_give_back used_after_free calls iovec = used_after_free
then_give_back overran calls iovec = overran

-- `_on_io_thread_readwrite` on a socket of this thread; `size` is what `readv` returns. On EV_WRITE
-- it does nothing yet.
unfoldable pub on_io_thread_readwrite : IoThread → SockObj → (is_read : Bool) → ℤ → Ended IoThread
unfolding io_thread_sockobj_close give_back then_give_back
on_io_thread_readwrite this sockobj false size = ended this []
on_io_thread_readwrite this sockobj true size =
    let (buf, iovcnt, iovec, got) = io_buffer_get this.tmp_io_buf 4 in
    let this' : IoThread = record this { tmp_io_buf = buf } in
    let calls = got ++ read sockobj.fd ∷ [] in
    if iovcnt == 0 then ended this' (got ++ log ∷ []) else (elim size [
      | negsuc n ↦
          then_give_back (io_thread_sockobj_close true this' sockobj) (calls ++ log ∷ [])
            (bases iovec)
      | pos zero ↦ then_give_back (io_thread_sockobj_close true this' sockobj) calls (bases iovec)
      | pos (suc n) ↦
          let used_iovcnt = 1 + n / io_buffer_slot_size in
          if used_iovcnt == 4
          then ended this' (calls ++ log ∷ [])
          else (if ltb used_iovcnt iovcnt
              then give_back this' calls (drop used_iovcnt (bases iovec))
              else ended this' calls)
    ])

-- `_on_io_thread_accept`, on a listening socket. `client` is the descriptor that `accept` returns
-- with the peer's address, `has_app` whether there is an application, `address` where the new object
-- is put.
unfoldable pub on_io_thread_accept :
    IoThread
    → SockObj
    → (is_error is_read : Bool) → Option (ℕ × ℕ)
    → Bool
    → ℕ
    → IoThread × List Call
on_io_thread_accept this l true is_read client has_app address = (this, log ∷ [])
on_io_thread_accept this l false false client has_app address = (this, [])
on_io_thread_accept this l false true none has_app address = (this, log ∷ [])
on_io_thread_accept this l false true (some (fd, peer)) false address =
    (this, accepted fd ∷ close fd ∷ [])
on_io_thread_accept this l false true (some (fd, peer)) true address = (
  record this {
    established =
        record {
          address = address;
          fd = fd;
          domain = l.domain;
          type = l.type;
          protocol = l.protocol;
          sockaddr = peer;
        }
        ∷ this.established;
  },
  accepted fd ∷ malloc ∷ io_init fd ∷ io_set fd ∷ io_start fd ∷ [],
)

-- `io_thread_die`, callable from other threads. The result of the put is not looked at.
unfoldable pub io_thread_die : WatcherCmdQ → WatcherCmdQ × List Call
io_thread_die cmd_q =
    let (cmd_q', _, calls) = watcher_cmd_q_put cmd_q iot_cmd_io_thread_die 0 in (cmd_q', calls)

pub io_thread_dtor : IoThread → List Call
io_thread_dtor this = watcher_cmd_q_delete this.cmd_q ++ io_buffer_delete this.tmp_io_buf
