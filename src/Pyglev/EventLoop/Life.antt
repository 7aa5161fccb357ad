-- ===== src/Pyglev/EventLoop/Life.antt =====
-- `event_loop_run` of pyglev/pyglev/core/evloop.c: the event loop from its start to its end, over the
-- handlers that libev calls.
pub mod Handlers
pub mod Lock
pub mod Ends
use striga2_pocs.Base.{
  ℕ, Bool, true, false, Option, none, some, List, [], ◌∷◌, ◌++◌, if◌then◌else◌, ℤ,
}
use striga2_pocs.Calls.{Call, gil_restore, gil_save}
use striga2_pocs.Pyglev.CmdQ.{Cmd, CmdQ}
use striga2_pocs.Pyglev.EstSocket.{EstSocket, Config, Revents, on_est_socket_io}
use striga2_pocs.Pyglev.ListenCmd.{Connection, on_listen_socket_io}
use striga2_pocs.Pyglev.EventLoop.{EventLoop, Answers, put_all, on_cmdq_ready}
use striga2_pocs.Pyglev.EventLoop.Break.{Broken, done, use_after_free, out_of_fuel, on_break_signal}

-- The event loop with its queue.
pub record Loop : Type 0 where
  pub q : CmdQ
  pub self : EventLoop

-- A call of a handler, with what it meets: the queue is ready; a connection comes in at the listen
-- command at an address, where `result` is what the error callback would return; an established socket
-- has an event; a signal breaks the loop. Between two calls, or before `ev_run` returns, other threads
-- may put commands.
pub data Handler : Type 0 where
  queue_ready : (fuel : ℕ) → (ℕ → Answers) → (arrivals : List (List Cmd)) → Handler
  connects : (address : ℕ) (result : Option ℕ) → Revents → Connection → Handler
  ready : EstSocket → Revents → (size_read : ℤ) → Option Config → Handler
  break_signal : (signum fuel : ℕ) (int_active term_active : Bool) → (errors : ℕ → Bool) → Handler
  puts : List Cmd → Handler

-- How it goes: well, or by a read of an object that has been freed; or it is not over yet.
pub data Handled : Type 0 where
  handled : Loop → List Call → Handled
  freed : Handled
  unfinished : Handled

abbrev pub before : List Call → Handled → Handled
before calls (handled l more) = handled l (calls ++ more)
before calls freed = freed
before calls unfinished = unfinished

unfoldable pub on_handler : Handler → Loop → Handled
unfolding put_all
on_handler (queue_ready fuel answers arrivals) l =
    elim (on_cmdq_ready fuel answers 0 arrivals l.q l.self) [
      | none ↦ unfinished
      | some (q, self, calls) ↦ handled (record { q = q; self = self }) calls
    ]
on_handler (connects address result revents c) l = elim (l.self.objects address) [
  | none ↦ freed
  | some o ↦
      let (established, calls) =
        on_listen_socket_io o.cmd (record { on_error = l.self.on_error; result = result }) revents c
          l.self.established_sockets in
      handled (record l { self = record (l.self) { established_sockets = established } }) calls
]
on_handler (ready socket revents size_read config) l =
    handled l (on_est_socket_io socket revents size_read config)
on_handler (break_signal signum fuel int_active term_active errors) l =
    elim (on_break_signal signum fuel int_active term_active errors l.self) [
      | done self calls ↦ handled (record l { self = self }) calls
      | use_after_free ↦ freed
      | out_of_fuel ↦ unfinished
    ]
on_handler (puts cs) l = handled (record l { q = put_all l.q cs }) []

unfoldable pub on_handlers : List Handler → Loop → Handled
unfolding on_handler
on_handlers [] l = handled l []
on_handlers (h ∷ hs) l = elim (on_handler h l) [
  | handled l' calls ↦ before calls (on_handlers hs l')
  | freed ↦ freed
  | unfinished ↦ unfinished
]

-- The calls of `ev_run`: the handlers that each calls, and what it returns.
unfoldable pub run_rounds : List (List Handler × Bool) → Loop → Handled
unfolding on_handlers
run_rounds [] l = unfinished
run_rounds ((hs, keep_running) ∷ more) l = elim (on_handlers hs l) [
  | handled l' calls ↦ elim keep_running [
    | true ↦ before calls (run_rounds more l')
    | false ↦ handled l' calls
  ]
  | freed ↦ freed
  | unfinished ↦ unfinished
]

unfoldable pub event_loop_run : List (List Handler × Bool) → Loop → Handled
unfolding run_rounds
event_loop_run rounds l = elim (run_rounds rounds l) [
  | handled l' calls ↦ handled l' (gil_save ∷ (calls ++ gil_restore ∷ []))
  | freed ↦ freed
  | unfinished ↦ unfinished
]
