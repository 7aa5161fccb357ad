-- ===== src/Tests/GreenevSystem.antt =====
-- One thread of greenev listens on two addresses, and the I/O thread takes the first command.
use striga2_pocs.Base.{ℕ, ◌+◌, ◌≡◌, refl, Bool, true, [], ◌∷◌, ◌++◌, ◌==◌, if◌then◌else◌}
use striga2_pocs.Calls.{opens, closes, io_start}
use striga2_pocs.Fifo.{admit}
use striga2_pocs.Greenev.Cmd.{Cmd}
use striga2_pocs.Greenev.CmdQEv.{take_cmd}
use striga2_pocs.Greenev.CmdQEv.Laws.{take_oldest}
use striga2_pocs.Greenev.CmdQEv.Drain.{Keeps}
use striga2_pocs.Greenev.IoBuffer.{io_buffer_of}
use striga2_pocs.Greenev.IoThread.{SockObj, IoThread, on_iot_cmd}
use striga2_pocs.Greenev.IoThread.Connecting.{io_thread_listen}
use striga2_pocs.Greenev.IoThread.Connecting.Listen.{commands, listen-queued}
use striga2_pocs.Greenev.IoThread.Life.Accounts.{times}
use striga2_pocs.Greenev.System.{System, rest, putting, Step, listens, takes, stays, goes}
use striga2_pocs.Greenev.System.Pending.{standing}
use striga2_pocs.Greenev.System.Conserved.{conserves_descriptors}
use striga2_pocs.Tests.GreenevIo.{socket_at, idle_queue, idle_queue-Keeps, both_listen}

abbrev memory : ℕ → SockObj
memory address = if address == 500 then socket_at 500 8 else socket_at 600 9

abbrev kept : ℕ → Bool
kept address = true

abbrev idle : System
idle = record {
  thread = record {
    listening = [];
    established = [];
    cmd_q = idle_queue;
    tmp_io_buf = io_buffer_of 8192 0;
  };
  waiting = [];
  lost = [];
}

abbrev queued : System
queued =
    putting memory kept 3 idle (io_thread_listen idle_queue both_listen).0
      (commands (io_thread_listen idle_queue both_listen).1)

abbrev first : Cmd
first = record { id = 2; arg = 500 }

abbrev taken : IoThread
taken = record {
  listening = socket_at 500 8 ∷ [];
  established = [];
  cmd_q = (take_cmd queued.thread.cmd_q).0;
  tmp_io_buf = io_buffer_of 8192 0;
}

listening : Step memory kept 3 idle (io_thread_listen idle_queue both_listen).2 queued
unfolding io_thread_listen
listening = listens idle both_listen refl

abbrev second : Cmd
second = record { id = 2; arg = 600 }

two_wait : Keeps queued.thread.cmd_q 3 77 (first ∷ second ∷ [])
unfolding io_thread_listen admit
two_wait = listen-queued idle_queue 3 77 [] both_listen idle_queue-Keeps

taking :
    Step memory kept 3 queued
      (io_start 8 ∷ [])
      (record { thread = taken; waiting = rest queued.waiting; lost = queued.lost })
unfolding on_iot_cmd
taking =
    takes queued first taken (io_start 8 ∷ [])
      (take_oldest queued.thread.cmd_q first (second ∷ []) two_wait.represents).0 refl

conserves_descriptors_example :
    let s : System = record { thread = taken; waiting = rest queued.waiting; lost = queued.lost } in
    let calls = (io_thread_listen idle_queue both_listen).2 ++ ((io_start 8 ∷ []) ++ []) in
    (times 8 (opens calls) + standing memory 8 idle ≡ times 8 (closes calls) + standing memory 8 s)
    × Keeps s.thread.cmd_q 3 77 s.waiting
conserves_descriptors_example =
    conserves_descriptors memory kept 3 77 8 idle _ _ (λ address. refl) idle_queue-Keeps
      (goes listening (goes taking (stays _)))
