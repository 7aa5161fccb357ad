-- ===== src/Greenev/IoThread/Life/Whole.antt =====
-- The I/O thread of greenev/iothread.c from its start to the command DIE and its end.
use striga2_pocs.Base.{
  ℕ, ◌+◌, ◌-◌, ◌≡◌, refl, sym, ap, ap₂, subst, Bool, true, some, List, [], ◌∷◌, ◌++◌, append-nil,
  length, arith, ltb, if◌then◌else◌,
}
use striga2_pocs.Calls.{
  Call, loop_ref, loop_unref, opens, closes, opens-append, closes-append, count, count-append,
  is_keeping, is_letting_go, is_io_start, is_io_stop,
}
use striga2_pocs.Greenev.Cmd.{Cmd}
use striga2_pocs.Greenev.CmdQEv.{watcher_cmd_q_put, watcher_cmd_q_start, watcher_cmd_q_stop}
use striga2_pocs.Greenev.CmdQEv.Laws.{put-Descriptors, put-holds_nothing, put-watchers}
use striga2_pocs.Greenev.CmdQEv.Drain.{Keeps, put-Keeps}
use striga2_pocs.Greenev.IoBuffer.Laws.{Fresh}
use striga2_pocs.Greenev.IoThread.{SockObj, IoThread, ended, on_iot_cmd, iot_cmd_io_thread_die}
use striga2_pocs.Greenev.IoThread.Life.{
  IoEvent, command, on_io_event, on_io_events, io_thread_start, io_thread_cleanup,
}
use striga2_pocs.Greenev.IoThread.Life.Accounts.{
  times, times-append, held, fds, brought, Account, Account-append, close_sockets-Closing,
}
use striga2_pocs.Greenev.IoThread.Life.Events.{goes_on, all_go_on, event-Account, brought-cons}
use striga2_pocs.Greenev.App.{Application, application_command, app_cmd_io_thread_exit}

abbrev pub die : ℕ → IoEvent
die arg = command (record { id = iot_cmd_io_thread_die; arg = arg })

-- DIE settles the account of every descriptor, and lets the loop go once.
pub die-Account :
    (memory : ℕ → SockObj) (intact : ℕ → Bool) (this : IoThread) (arg : ℕ)
    → ((address : ℕ) → intact address ≡ true)
    → (calls : List Call) × (on_io_event memory intact this (die arg)
        ≡ ended (record this { listening = []; established = [] }) calls)
      × ((fd : ℕ) → Account fd this (record this { listening = []; established = [] }) [] 1 calls)
unfolding on_io_event on_iot_cmd times opens closes count is_io_start is_io_stop is_keeping
    is_letting_go
die-Account memory intact this arg h =
    let (calls, e, c) = close_sockets-Closing intact this.listening h in
    let (more, f, d) = close_sockets-Closing intact this.established h in
    let last = loop_unref ∷ [] in
    let whole = calls ++ (more ++ last) in
    (
      whole,
      rw (e, f) refl,
      λ fd. record {
        descriptors = omega (
          arith,
          (c fd).closing,
          (d fd).closing,
          ap (times fd) (opens-append calls (more ++ last)),
          ap (times fd) (opens-append more last),
          ap (times fd) (closes-append calls (more ++ last)),
          ap (times fd) (closes-append more last),
          times-append fd (opens calls) (opens (more ++ last)),
          times-append fd (opens more) (opens last),
          times-append fd (closes calls) (closes (more ++ last)),
          times-append fd (closes more) (closes last),
          ap (times fd) (c fd).opening,
          ap (times fd) (d fd).opening,
          times-append fd (fds this.listening) (fds this.established),
        );
        watchers = omega (
          arith,
          (c fd).starting,
          (d fd).starting,
          (c fd).stopping,
          (d fd).stopping,
          count-append (is_io_start fd) calls (more ++ last),
          count-append (is_io_start fd) more last,
          count-append (is_io_stop fd) calls (more ++ last),
          count-append (is_io_stop fd) more last,
          times-append fd (fds this.listening) (fds this.established),
        );
        keeping = omega (
          arith,
          (c fd).keeping,
          (d fd).keeping,
          count-append is_keeping calls (more ++ last),
          count-append is_keeping more last,
        );
        letting_go = omega (
          arith,
          (c fd).letting_go,
          (d fd).letting_go,
          count-append is_letting_go calls (more ++ last),
          count-append is_letting_go more last,
        );
      },
    )

-- The events of a thread, and DIE behind them.
until_die-Account :
    (memory : ℕ → SockObj) (intact : ℕ → Bool) (this : IoThread) (es : List IoEvent)
    (slot_count start arg : ℕ)
    → ((address : ℕ) → intact address ≡ true)
    → Fresh this.tmp_io_buf slot_count start
    → all_go_on es ≡ true
    → (this' : IoThread) × (calls : List Call) × (on_io_events memory intact this
          (es ++ die arg ∷ [])
        ≡ ended this' calls)
      × (this'.listening ≡ [])
      × (this'.established ≡ [])
      × ((fd : ℕ) → Account fd this this' (brought memory es) 1 calls)
unfolding on_io_events all_go_on brought
until_die-Account memory intact this [] slot_count start arg h f g =
    let (calls, e, a) = die-Account memory intact this arg h in
    (
      record this { listening = []; established = [] },
      calls,
      rw (on_io_events, e, append-nil calls) refl,
      refl,
      refl,
      a,
    )
until_die-Account memory intact this (e ∷ es) slot_count start arg h f g =
    let first : goes_on e ≡ true = ground (arith, g) in
    let others : all_go_on es ≡ true = ground (arith, g) in
    let (this', calls, one, a, f') = event-Account memory intact this e slot_count start f first in
    let (this'', more, all, l, m, b) =
      until_die-Account memory intact this' es slot_count start arg h f' others in
    (
      this'',
      calls ++ more,
      rw (on_io_events, one, all) refl,
      l,
      m,
      λ fd.
          subst (λ bs. Account fd this this'' bs 1 (calls ++ more)) (sym (brought-cons memory e es))
            (Account-append (a fd) (b fd)),
    )

-- The command that tells the application of the end of the thread at an address.
abbrev pub thread_exit : ℕ → Cmd
thread_exit arg = record { id = app_cmd_io_thread_exit; arg = arg }

-- A thread that begins with no sockets and a pool that has only been taken from. Its loop gives it
-- any number of commands of other threads, of accepted connections, of write events and of reads of
-- more than 49152 bytes, in any order, and then the command DIE; freed memory keeps what it was. It
-- comes to its end, with both lists empty. Each descriptor `fd` is closed as often as it was opened by
-- the thread or brought by a command, and its watcher stopped as often as it was started; nothing
-- is left that keeps the loop running (the one reference that is let go in excess is that of the
-- queue's watcher, which its stop does not take back). The application gets an IO_THREAD_EXIT behind
-- the commands in its queue, if there is room for one.
pub io_thread_life :
    (memory : ℕ → SockObj) (intact : ℕ → Bool) (this : IoThread) (app : Application)
    (size callbackarg arg slot_count start die_arg fd : ℕ) (xs : List Cmd) (es : List IoEvent)
    → ((address : ℕ) → intact address ≡ true)
    → held this ≡ []
    → Fresh this.tmp_io_buf slot_count start
    → all_go_on es ≡ true
    → Keeps app.app_cmd_q size callbackarg xs
    → (this' : IoThread) × (app' : Application) × (calls : List Call) × (io_thread_start memory
          intact this
          (some app)
          arg
          (es ++ die die_arg ∷ [])
        ≡ ended (this', some app') calls)
      × (this'.listening ≡ [])
      × (this'.established ≡ [])
      × (times fd (opens calls) + times fd (brought memory es) ≡ times fd (closes calls))
      × (count (is_io_start fd) calls ≡ count (is_io_stop fd) calls)
      × (count is_letting_go calls ≡ count is_keeping calls + 1)
      × Keeps app'.app_cmd_q size callbackarg
          (if ltb (length xs) (size - 1) then xs ++ thread_exit arg ∷ [] else xs)
unfolding io_thread_start io_thread_cleanup watcher_cmd_q_start watcher_cmd_q_stop
    application_command times count is_io_start is_io_stop is_keeping is_letting_go opens closes
io_thread_life memory intact this app size callbackarg arg slot_count start die_arg fd xs es h
      none_held f g k =
    let (this', calls, run, l, m, a) =
      until_die-Account memory intact this es slot_count start die_arg h f g in
    let put = (watcher_cmd_q_put app.app_cmd_q app_cmd_io_thread_exit arg).2 in
    let leaving = watcher_cmd_q_stop this'.cmd_q ++ put in
    let d = put-Descriptors app.app_cmd_q app_cmd_io_thread_exit arg in
    let (k₁, n₁) = put-holds_nothing app.app_cmd_q app_cmd_io_thread_exit arg in
    let none_left : times fd (held this') ≡ 0 = ap₂ (λ xs ys. times fd (fds xs ++ fds ys)) l m in
    let none_before : times fd (held this) ≡ 0 = ap (times fd) none_held in
    let (st, sp) = put-watchers app.app_cmd_q app_cmd_io_thread_exit arg fd in
    (
      this',
      record app { app_cmd_q = (watcher_cmd_q_put app.app_cmd_q app_cmd_io_thread_exit arg).0 },
      watcher_cmd_q_start this.cmd_q ++ loop_ref ∷ (calls ++ leaving),
      rw (io_thread_start, run) refl,
      l,
      m,
      omega (
        arith,
        (a fd).descriptors,
        none_left,
        none_before,
        ap (times fd) (opens-append calls leaving),
        ap (times fd) (closes-append calls leaving),
        times-append fd (opens calls) (opens leaving),
        times-append fd (closes calls) (closes leaving),
        ap (times fd) d.opening,
        ap (times fd) d.closing,
      ),
      omega (
        arith,
        (a fd).watchers,
        none_left,
        none_before,
        count-append (is_io_start fd) calls leaving,
        count-append (is_io_stop fd) calls leaving,
        st,
        sp,
      ),
      omega (
        arith,
        (a fd).keeping,
        (a fd).letting_go,
        count-append is_keeping calls leaving,
        count-append is_letting_go calls leaving,
        k₁,
        n₁,
      ),
      put-Keeps app.app_cmd_q size callbackarg xs (thread_exit arg) k,
    )
