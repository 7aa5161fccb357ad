-- ===== src/Greenev/System.antt =====
-- The I/O thread of greenev/iothread.c together with the threads that send it commands through the
-- queue of greenev/cmdq_ev.c, in any interleaving: one step is one call of a function by one of them.
pub mod Pending
pub mod Steps
pub mod Reads
pub mod Conserved
use striga2_pocs.Base.{
  ℕ, ◌-◌, ◌≡◌, Bool, Option, none, some, List, [], ◌∷◌, ◌++◌, map, length, ltb, if◌then◌else◌,
  false, ℤ,
}
use striga2_pocs.Calls.{Call}
use striga2_pocs.Fifo.{admit}
use striga2_pocs.Greenev.Cmd.{Cmd}
use striga2_pocs.Greenev.CmdQEv.{WatcherCmdQ, take_cmd}
use striga2_pocs.Greenev.IoThread.{
  SockObj, IoThread, ended, on_iot_cmd, on_io_thread_accept, on_io_thread_readwrite, io_thread_die,
  iot_cmd_io_thread_die, iot_cmd_io_thread_establish,
}
use striga2_pocs.Greenev.IoThread.Sockets.{has_node}
use striga2_pocs.Greenev.IoThread.Connecting.{Address, io_thread_listen, io_thread_connect}
use striga2_pocs.Greenev.IoThread.Connecting.Listen.{commands}

-- The thread with its queue; for the record, the commands that wait in the queue, and those whose put
-- found it full.
pub record System : Type 0 where
  pub thread : IoThread
  pub waiting : List Cmd
  pub lost : List Cmd

-- Of some commands put one after the other, those that find the queue full.
unfoldable pub refused : ℕ → List Cmd → List Cmd → List Cmd
refused capacity xs [] = []
refused capacity xs (c ∷ cs) =
    let behind = refused capacity (xs ++ c ∷ []) cs in
    let without = refused capacity xs cs in if ltb (length xs) capacity then behind else c ∷ without

abbrev pub establishing : Option SockObj → List Cmd
establishing none = []
establishing (some s) = record { id = iot_cmd_io_thread_establish; arg = s.address } ∷ []

abbrev pub die_cmd : Cmd
die_cmd = record { id = iot_cmd_io_thread_die; arg = 0 }

abbrev pub made_objects : Option SockObj → List SockObj
made_objects none = []
made_objects (some s) = s ∷ []

abbrev pub rest : List Cmd → List Cmd
rest [] = []
rest (c ∷ cs) = cs

-- The socket stands in the list, and no node before it has its address.
pub record Listed (sockobj : SockObj) (xs : List SockObj) : Type 0 where
  pub before : List SockObj
  pub after : List SockObj
  pub split : xs ≡ before ++ sockobj ∷ after
  pub first : has_node sockobj.address before ≡ false

-- `memory` holds the socket objects at their addresses, new ones where `malloc` has put them.
module _ (memory : ℕ → SockObj) (intact : ℕ → Bool) (size : ℕ) where
  abbrev pub putting : System → WatcherCmdQ → List Cmd → System
  putting s q cs = record {
    thread = record (s.thread) { cmd_q = q };
    waiting = admit (size - 1) s.waiting cs;
    lost = refused (size - 1) s.waiting cs ++ s.lost;
  }

  abbrev pub Placed : List SockObj → Type 0
  Placed objects = map (λ s. memory s.address) objects ≡ objects

  -- Another thread listens, connects, or tells the thread to end; the thread takes a command and
  -- carries it out, accepts a connection, or reads from a socket in its list.
  pub data Step : System → List Call → System → Type 0 where
    listens :
        (s : System) (resolved : Option (List Address))
        → Placed (io_thread_listen s.thread.cmd_q resolved).1
        → Step s (io_thread_listen s.thread.cmd_q resolved).2 (
            putting s
              (io_thread_listen s.thread.cmd_q resolved).0
              (commands (io_thread_listen s.thread.cmd_q resolved).1))
    connects :
        (s : System) (resolved : Option (List Address))
        → Placed (made_objects (io_thread_connect s.thread.cmd_q resolved).1)
        → Step s (io_thread_connect s.thread.cmd_q resolved).2 (
            putting s
              (io_thread_connect s.thread.cmd_q resolved).0
              (establishing (io_thread_connect s.thread.cmd_q resolved).1))
    dies :
        (s : System)
        → Step s
            (io_thread_die s.thread.cmd_q).1
            (putting s (io_thread_die s.thread.cmd_q).0 (die_cmd ∷ []))
    takes :
        (s : System) (cmd : Cmd) (thread' : IoThread) (calls : List Call)
        → (take_cmd s.thread.cmd_q).1 ≡ some cmd
        → on_iot_cmd memory intact (record (s.thread) { cmd_q = (take_cmd s.thread.cmd_q).0 }) cmd
          ≡ ended thread' calls
        → Step s calls (record { thread = thread'; waiting = rest s.waiting; lost = s.lost })
    accepts :
        (s : System) (l : SockObj) (is_error is_read : Bool) (client : Option (ℕ × ℕ))
        (has_app : Bool) (address : ℕ)
        → Step s
            (on_io_thread_accept s.thread l is_error is_read client has_app address).1
            (record s {
              thread = (on_io_thread_accept s.thread l is_error is_read client has_app address).0;
            })
    reads :
        (s : System) (sockobj : SockObj) (is_read : Bool) (count : ℤ) (thread' : IoThread)
        (calls : List Call)
        → Listed sockobj s.thread.established
        → on_io_thread_readwrite s.thread sockobj is_read count ≡ ended thread' calls
        → Step s calls (record s { thread = thread' })

  -- Any number of steps.
  pub data Run : System → List Call → System → Type 0 where
    stays : (s : System) → Run s [] s
    goes :
        {s s' s'' : System} {calls more : List Call}
        → Step s calls s'
        → Run s' more s''
        → Run s (calls ++ more) s''
