-- ===== src/Singlev/App.antt =====
-- The application of singlev/src/app.c: its phases, its event loop, the handlers of the loop, and
-- the resolver of listening addresses.
pub mod Listen
pub mod Loop
use striga2_pocs.Base.{
  ℕ, zero, suc, ◌+◌, Bool, true, false, Option, none, some, List, [], ◌∷◌, ◌++◌, ◌==◌,
  if◌then◌else◌, length, ℤ, pos, negsuc,
}
use striga2_pocs.Calls.{
  Call, Outcome, returns, aborts, signal_init, signal_start, signal_stop, py_api, log,
}
use striga2_pocs.Fifo.{now_or_nil, later_or_nil, total}
use striga2_pocs.Singlev.CmdQ.{
  Cmd, CmdQ, cmd_q_new, cmd_q_delete, cmd_q_start, cmd_q_stop, cmd_q_put, cmd_q_get,
}

-- `enum app_run_phases` and `enum app_cmd_ids` of singlev/src/app.h
abbrev pub app_run_phase_init : ℕ
app_run_phase_init = 0

abbrev pub app_run_phase_run : ℕ
app_run_phase_run = 100

abbrev pub app_run_phase_dying : ℕ
app_run_phase_dying = 990

abbrev pub app_run_phase_exit : ℕ
app_run_phase_exit = 1000

abbrev pub app_cmd_id_listen : ℕ
app_cmd_id_listen = 1

-- `struct application`, less the signal watchers and the two lists of sockets, which stay `NULL`.
-- `python_thread_state` says whether the pointer is not `NULL`, that is, whether a thread is in the
-- event loop.
pub record Application : Type 0 where
  pub run_phase : ℕ
  pub exit_status : ℕ
  pub python_thread_state : Bool
  pub cmd_q : CmdQ

abbrev sigint : ℕ
sigint = 2

abbrev sigterm : ℕ
sigterm = 15

-- `has_app` says whether there is an application already, `initialized` whether Python is, and
-- `has_loop` whether libev gives its default loop. The queue is used without a test for `NULL`.
-- Where there is no loop the source calls `exit`, which is `aborts` here like a failed assert.
unfoldable pub application_ctor :
    (has_app initialized has_loop : Bool)
    → Option (List Cmd)
    → (this : ℕ) → Outcome (Application × List Call)
application_ctor true initialized has_loop memory this = aborts
application_ctor false true has_loop memory this = aborts
application_ctor false false false memory this = aborts
application_ctor false false true memory this = elim (cmd_q_new 128 memory) [
  | aborts ↦ aborts
  | returns (none, calls) ↦ aborts
  | returns (some q, calls) ↦ returns (
    record {
      run_phase = app_run_phase_init;
      exit_status = 0;
      python_thread_state = false;
      cmd_q = record q { owner = some this };
    },
    calls
        ++ (cmd_q_start q
            ++ signal_init sigint
              ∷ signal_start sigint
              ∷ signal_init sigterm
              ∷ signal_start sigterm
              ∷ py_api
              ∷ py_api
              ∷ py_api
              ∷ py_api
              ∷ py_api
              ∷ []),
  )
]

-- The watcher of the queue is stopped before the queue is deleted.
unfoldable pub application_dtor : Application → Outcome (Application × List Call)
application_dtor this =
    if this.python_thread_state then aborts else (elim (cmd_q_delete this.cmd_q false) [
      | aborts ↦ aborts
      | returns deleted ↦ returns (
        record this { run_phase = app_run_phase_exit },
        cmd_q_stop this.cmd_q ++ py_api ∷ signal_stop sigint ∷ signal_stop sigterm ∷ deleted,
      )
    ])

-- `_application_die`
unfoldable pub application_die : Application → Outcome (Application × List Call)
application_die this =
    if this.run_phase == app_run_phase_dying
    then returns (this, [])
    else (if this.run_phase == app_run_phase_exit
        then returns (this, [])
        else (if this.run_phase == app_run_phase_run
            then returns (
              record this { run_phase = app_run_phase_dying },
              signal_stop sigint ∷ signal_stop sigterm ∷ [],
            )
            else aborts))

-- `_application_on_terminating_signal`; the line break printed for SIGINT is a `log`.
unfoldable pub on_terminating_signal : Application → ℕ → Outcome (Application × List Call)
unfolding application_die
on_terminating_signal this signum = elim (application_die this) [
  | aborts ↦ aborts
  | returns (this', calls) ↦ returns (this', (if signum == sigint then log ∷ [] else []) ++ calls)
]

-- `application_command`, callable from other threads. The watcher of the queue is active from the
-- constructor to the destructor.
unfoldable pub application_command : Application → ℕ → ℕ → Application × Bool × List Call
application_command this cmd_id content =
    let (q, done, calls) = cmd_q_put this.cmd_q true cmd_id content in
    (record this { cmd_q = q }, done, calls)

-- The puts that other threads make between two turns.
unfoldable pub put_all : CmdQ → List Cmd → CmdQ
put_all q [] = q
put_all q (c ∷ cs) = put_all (cmd_q_put q true c.id c.content).0 cs

abbrev pub is_negative : ℤ → Bool
is_negative (pos n) = false
is_negative (negsuc n) = true

abbrev pub is_zero : ℤ → Bool
is_zero (pos n) = n == 0
is_zero (negsuc n) = false

-- `_application_on_cmdq_ready`, on fuel: `none` means that it ran out. Every command is printed, a
-- `log` in the trace, and that is all; `arrivals` are the puts before each turn.
unfoldable pub on_cmdq_ready : ℕ → List (List Cmd) → CmdQ → Option (CmdQ × List Call)
unfolding put_all
on_cmdq_ready zero arrivals q = none
on_cmdq_ready (suc fuel) arrivals q =
    let (q', qsize, taken, calls) = cmd_q_get (put_all q (now_or_nil arrivals)) in
    if is_negative qsize
    then some (q', calls ++ log ∷ [])
    else (if is_zero qsize
        then some (q', calls ++ log ∷ log ∷ [])
        else (elim (on_cmdq_ready fuel (later_or_nil arrivals) q') [
          | none ↦ none
          | some (q'', more) ↦ some (q'', calls ++ log ∷ more)
        ]))

-- What happens while the event loop runs: a signal, a wake of the queue's watcher, or a command from
-- another thread.
pub data LoopEvent : Type 0 where
  signal : ℕ → LoopEvent
  ready : List (List Cmd) → LoopEvent
  command : (cmd_id content : ℕ) → LoopEvent

-- How a run ends: well, by a failed assert, or not within the fuel that `handle` gives or
-- the calls of `ev_run` that there are.
pub data Ran (A : Type 0) : Type 0 where
  ran : A → List Call → Ran A
  asserted : Ran A
  still_running : Ran A

unfoldable pub handle : Application → LoopEvent → Ran Application
unfolding on_terminating_signal on_cmdq_ready application_command
handle this (signal signum) = elim (on_terminating_signal this signum) [
  | aborts ↦ asserted
  | returns (this', calls) ↦ ran this' calls
]
handle this (ready arrivals) =
    elim (on_cmdq_ready (this.cmd_q.size + total arrivals) arrivals this.cmd_q) [
      | none ↦ still_running
      | some (q, calls) ↦ ran (record this { cmd_q = q }) calls
    ]
handle this (command cmd_id content) =
    let (this', _, calls) = application_command this cmd_id content in ran this' calls

-- The handlers that one call of `ev_run` calls.
pub on_events : Application → List LoopEvent → Ran Application
unfolding handle
on_events this [] = ran this []
on_events this (e ∷ es) = elim (handle this e) [
  | asserted ↦ asserted
  | still_running ↦ still_running
  | ran this' calls ↦ elim (on_events this' es) [
    | asserted ↦ asserted
    | still_running ↦ still_running
    | ran this'' more ↦ ran this'' (calls ++ more)
  ]
]

-- The loop of `application_run` over the calls of `ev_run`: the events that each has, and whether it
-- returns true. It goes on until one returns false.
unfoldable pub application_run : Application → List (List LoopEvent × Bool) → Ran Application
unfolding on_events
application_run this [] = still_running
application_run this ((events, keep_running) ∷ rounds) = elim (on_events this events) [
  | asserted ↦ asserted
  | still_running ↦ still_running
  | ran this' calls ↦ elim keep_running [
    | false ↦ ran this' calls
    | true ↦ elim (application_run this' rounds) [
      | asserted ↦ asserted
      | still_running ↦ still_running
      | ran this'' more ↦ ran this'' (calls ++ more)
    ]
  ]
]
