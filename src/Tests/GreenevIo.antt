-- ===== src/Tests/GreenevIo.antt =====
-- The buffer pool and the I/O thread of greenev, on small inputs.
use striga2_pocs.Base.{
  ℕ, ◌≡◌, refl, ◌⊎◌, Bool, true, false, Option, none, some, List, [], ◌∷◌, ◌++◌, map, length, arith,
  pos,
}
use striga2_pocs.Calls.{Call, opens, closes}
use striga2_pocs.Greenev.Cmd.{Cmd}
use striga2_pocs.Greenev.CmdQEv.{WatcherCmdQ, watcher_cmd_q_put, put_all}
use striga2_pocs.Greenev.CmdQEv.Drain.{Keeps}
use striga2_pocs.Greenev.IoBuffer.{io_buffer_of}
use striga2_pocs.Greenev.IoBuffer.Laws.{Fresh, new-Fresh}
use striga2_pocs.Greenev.IoThread.{
  SockObj, IoThread, ended, asserted_out, used_after_free, overran, on_iot_cmd, unlink,
  io_thread_sockobj_close, on_io_thread_accept, on_io_thread_readwrite, iot_cmd_io_thread_establish,
}
use striga2_pocs.Greenev.IoThread.Sockets.{die, fds, sockobj_close-removes}
use striga2_pocs.Greenev.IoThread.Reading.{short_read-overruns}
use striga2_pocs.Greenev.IoThread.Connecting.{
  new_sockobj, Address, io_thread_listen, io_thread_connect,
}
use striga2_pocs.Greenev.IoThread.Connecting.Listen.{
  commands, resolved_listen, all_listen, listen-descriptors,
}
use striga2_pocs.Greenev.IoThread.Connecting.Connect.{resolved_connecting, connect-descriptors}

abbrev pub socket_at : ℕ → ℕ → SockObj
socket_at address fd = record {
  address = address;
  fd = fd;
  domain = 2;
  type = 1;
  protocol = 6;
  sockaddr = 0;
}

abbrev blank : Cmd
blank = record { id = 0; arg = 0 }

abbrev pub idle_queue : WatcherCmdQ
idle_queue = record {
  q_size = 3;
  q_head = 0;
  q_tail = 0;
  callbackarg = 77;
  q = blank ∷ blank ∷ blank ∷ [];
}

pub idle_queue-Keeps : Keeps idle_queue 3 77 []
idle_queue-Keeps = record {
  represents = record {
    small = omega arith;
    cells = record {
      room = refl;
      fits = omega arith;
      tail_in = omega arith;
      meets = refl;
      window = tt;
    };
  };
  sized = refl;
  owned = refl;
}

abbrev busy : IoThread
busy = record {
  listening = socket_at 100 3 ∷ [];
  established = socket_at 200 4 ∷ socket_at 300 5 ∷ [];
  cmd_q = idle_queue;
  tmp_io_buf = io_buffer_of 8192 0;
}

busy-Fresh : Fresh (io_buffer_of 8192 0) 8192 0
busy-Fresh = new-Fresh 8192 0 (omega arith) (omega arith)

abbrev memory : ℕ → SockObj
memory address = socket_at address 6

abbrev kept : ℕ → Bool
kept address = true

abbrev lost : ℕ → Bool
lost address = false

sockobj_close-removes_example :
    (io_thread_sockobj_close true
        (record busy { established = socket_at 200 4 ∷ socket_at 300 5 ∷ [] })
        (socket_at 300 5)
      ≡ ended
          (record busy { established = socket_at 200 4 ∷ [] })
          (Call.close 5 ∷ Call.io_stop 5 ∷ Call.free ∷ []))
    × (io_thread_sockobj_close true
          (record busy { established = socket_at 200 4 ∷ [] })
          (socket_at 300 5)
        ≡ asserted_out)
    × (io_thread_sockobj_close false busy (socket_at 300 5) ≡ asserted_out)
unfolding striga2_pocs.Greenev.IoThread.Sockets.has_node
sockobj_close-removes_example =
    sockobj_close-removes busy (socket_at 300 5) (socket_at 200 4 ∷ []) [] refl

short_read-overruns_example : on_io_thread_readwrite busy (socket_at 200 4) true (pos 100) ≡ overran
short_read-overruns_example =
    short_read-overruns busy (socket_at 200 4) 8192 0 99 busy-Fresh (omega arith)

found : unlink 200 (busy.established) ≡ some (socket_at 300 5 ∷ [])
unfolding unlink
found = refl

abbrev answer : ℕ → ℕ → Bool → Address
answer fd place succeeds = record {
  domain = 2;
  type = 1;
  protocol = 6;
  sockaddr = 0;
  named = true;
  socket = some fd;
  option_set = true;
  bound = true;
  succeeds = succeeds;
  place = place;
}

abbrev pub both_listen : Option (List Address)
both_listen = some (answer 8 500 true ∷ answer 9 600 true ∷ [])

abbrev second_connects : Option (List Address)
second_connects = some (answer 8 500 false ∷ answer 9 600 true ∷ [])

listen-descriptors_example :
    let (q', objects, calls) = io_thread_listen idle_queue both_listen in
    ((resolved_listen both_listen ≡ false)
        × (objects ≡ [])
        × (q' ≡ idle_queue)
        × (closes calls ≡ opens calls)
      ⊎ (addresses : List Address) × (both_listen ≡ some addresses)
        × (all_listen addresses ≡ true)
        × (length objects ≡ length addresses)
        × (map (λ s. s.fd) objects ≡ opens calls)
        × (closes calls ≡ [])
        × (q' ≡ put_all idle_queue (commands objects)))
listen-descriptors_example = listen-descriptors idle_queue both_listen

connect-descriptors_example :
    let (q', made, calls) = io_thread_connect idle_queue second_connects in
    ((resolved_connecting second_connects ≡ none)
        × (made ≡ none)
        × (q' ≡ idle_queue)
        × (closes calls ≡ opens calls)
      ⊎ ((a : Address) × (fd : ℕ) × (resolved_connecting second_connects ≡ some a)
          × (a.socket ≡ some fd)
          × (made ≡ some (new_sockobj a fd))
          × (opens calls ≡ closes calls ++ fd ∷ [])
          × (q' ≡ (watcher_cmd_q_put idle_queue iot_cmd_io_thread_establish a.place).0)))
connect-descriptors_example = connect-descriptors idle_queue second_connects
