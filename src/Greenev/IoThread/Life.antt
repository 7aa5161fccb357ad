-- ===== src/Greenev/IoThread/Life.antt =====
-- The life of the I/O thread of greenev/iothread.c: the events that its loop gives it, in any order,
-- between its start and its end.
pub mod Accounts
pub mod Events
pub mod Whole
use striga2_pocs.Base.{
  ℕ, Bool, true, false, not, Option, none, some, List, [], ◌∷◌, ◌++◌, ◌&&◌, leb, ltb, ◌==◌,
  if◌then◌else◌, ℤ, pos, negsuc,
}
use striga2_pocs.Calls.{Call, loop_ref}
use striga2_pocs.Greenev.Cmd.{Cmd}
use striga2_pocs.Greenev.CmdQEv.{watcher_cmd_q_start, watcher_cmd_q_stop}
use striga2_pocs.Greenev.IoThread.{
  SockObj, IoThread, Ended, ended, asserted_out, used_after_free, overran, on_iot_cmd,
  on_io_thread_accept, on_io_thread_readwrite, iot_cmd_io_thread_die, iot_cmd_io_thread_listen,
  iot_cmd_io_thread_establish,
}
use striga2_pocs.Greenev.App.{Application, application_command, app_cmd_io_thread_exit}

-- One call of a handler by the loop: a command from the queue, an event of a listening socket, with
-- what `accept` gives, or one of an established socket, with what `readv` returns.
pub data IoEvent : Type 0 where
  command : Cmd → IoEvent
  accepting :
      (listening : SockObj) (is_error is_read : Bool)
      → Option (ℕ × ℕ)
      → (has_app : Bool) (address : ℕ) → IoEvent
  ready : (established : SockObj) (is_read : Bool) → ℤ → IoEvent

unfoldable pub on_io_event : (ℕ → SockObj) → (ℕ → Bool) → IoThread → IoEvent → Ended IoThread
unfolding on_iot_cmd on_io_thread_accept on_io_thread_readwrite
on_io_event memory intact this (command cmd) = on_iot_cmd memory intact this cmd
on_io_event memory intact this (accepting l is_error is_read client has_app address) =
    let (this', calls) = on_io_thread_accept this l is_error is_read client has_app address in
    ended this' calls
on_io_event memory intact this (ready sockobj is_read size) =
    on_io_thread_readwrite this sockobj is_read size

-- The event loop, up to the round of `ev_run` that returns false.
unfoldable pub on_io_events : (ℕ → SockObj) → (ℕ → Bool) → IoThread → List IoEvent → Ended IoThread
unfolding on_io_event
on_io_events memory intact this [] = ended this []
on_io_events memory intact this (e ∷ es) = elim (on_io_event memory intact this e) [
  | asserted_out ↦ asserted_out
  | used_after_free ↦ used_after_free
  | overran ↦ overran
  | ended this' calls ↦ elim (on_io_events memory intact this' es) [
    | asserted_out ↦ asserted_out
    | used_after_free ↦ used_after_free
    | overran ↦ overran
    | ended this'' more ↦ ended this'' (calls ++ more)
  ]
]

-- `_io_thread_cleanup`; `arg` is the address of the thread, and the pointer `app` may be `NULL`.
unfoldable pub io_thread_cleanup :
    IoThread → Option Application → (arg : ℕ) → Option Application × List Call
io_thread_cleanup this none arg = (none, watcher_cmd_q_stop this.cmd_q)
io_thread_cleanup this (some app) arg =
    let (app', _, calls) = application_command app app_cmd_io_thread_exit arg in
    (some app', watcher_cmd_q_stop this.cmd_q ++ calls)

-- `_io_thread_start`
unfoldable pub io_thread_start :
    (ℕ → SockObj)
    → (ℕ → Bool)
    → IoThread
    → Option Application
    → (arg : ℕ) → List IoEvent
    → Ended (IoThread × Option Application)
unfolding on_io_events io_thread_cleanup
io_thread_start memory intact this app arg events = elim (on_io_events memory intact this events) [
  | asserted_out ↦ asserted_out
  | used_after_free ↦ used_after_free
  | overran ↦ overran
  | ended this' calls ↦
      let (app', exiting) = io_thread_cleanup this' app arg in
      ended (this', app') (watcher_cmd_q_start this.cmd_q ++ loop_ref ∷ (calls ++ exiting))
]
