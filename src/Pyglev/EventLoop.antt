-- ===== src/Pyglev/EventLoop.antt =====
-- The event loop object of pyglev/pyglev/core/evloop.c: it drains the command queue, keeps the list
-- of its listen commands, and ends when a signal breaks it.
pub mod Drain
pub mod Break
pub mod Objects
pub mod Life
use striga2_pocs.Base.{
  ℕ, zero, suc, ◌+◌, ◌-◌, Bool, true, false, ◌||◌, not, Option, none, some, List, [], ◌∷◌, ◌++◌,
  ◌==◌, if◌then◌else◌, ℤ, pos, negsuc,
}
use striga2_pocs.Fifo.{now_or_nil, later_or_nil}
use striga2_pocs.Calls.{
  Call, Outcome, returns, aborts, gil_restore, gil_save, py_api, py_call, py_incref, py_decref, log,
  signal_init, signal_start, signal_stop, loop_new, loop_destroy,
}
use striga2_pocs.Pyglev.CmdQ.{Cmd, CmdQ, cmd_q_new, cmd_q_start, cmd_q_put, cmd_q_get}
use striga2_pocs.Pyglev.EstSocket.{EstSocket}
use striga2_pocs.Pyglev.ListenCmd.{
  ListenCmd, Address, Reporter, listen_cmd_xschedule_01, listen_cmd_close,
}

-- A listen command object, with its reference count.
pub record Object : Type 0 where
  pub cmd : ListenCmd
  pub refs : ℕ

-- `struct event_loop`, with the listen command objects by their addresses. The command queue stands
-- beside it. `listen_commands` is the address of the first of a list linked by `next`, 0 for none.
pub record EventLoop : Type 0 where
  pub on_error : Option ℕ
  pub listen_commands : ℕ
  pub established_sockets : List EstSocket
  pub objects : ℕ → Option Object

-- `enum pyglev_evloop_cmd_ids` of pyglev/pyglev/core/pyglev.h
abbrev pub cmd_callable : ℕ
cmd_callable = 0

abbrev pub cmd_listen_cmd_01 : ℕ
cmd_listen_cmd_01 = 50

abbrev pub update : (ℕ → Option Object) → ℕ → Option Object → ℕ → Option Object
update objects p o q = if q == p then o else objects q

-- The signals that are caught.
abbrev sigint : ℕ
sigint = 2

abbrev sigterm : ℕ
sigterm = 15

-- `event_loop_ctor`. `parsed` is `none` where the arguments do not parse, and else whether the loop
-- dies on a signal; `allocated` and `has_loop` say whether `tp_alloc` and `ev_loop_new` gave
-- something; `memory` is what `malloc` gives the queue. The queue is used without a test for `NULL`.
pub event_loop_ctor :
    Option Bool
    → (allocated has_loop : Bool) → (self : ℕ) → Option (List Cmd)
    → Outcome (Option (EventLoop × CmdQ) × List Call)
event_loop_ctor none allocated has_loop self memory = returns (none, py_api ∷ [])
event_loop_ctor (some die_on_signal) false has_loop self memory =
    returns (none, py_api ∷ py_api ∷ [])
event_loop_ctor (some die_on_signal) true false self memory =
    returns (none, py_api ∷ py_api ∷ loop_new ∷ py_api ∷ py_api ∷ [])
event_loop_ctor (some die_on_signal) true true self memory = elim (cmd_q_new 128 memory) [
  | aborts ↦ aborts
  | returns (none, calls) ↦ aborts
  | returns (some q, calls) ↦ returns (
    some (
      record {
        on_error = none;
        listen_commands = 0;
        established_sockets = [];
        objects = λ p. none;
      },
      record q { owner = some self },
    ),
    py_api
        ∷ py_api
        ∷ loop_new
        ∷ (calls
            ++ (cmd_q_start q
                ++ (if die_on_signal
                    then signal_init sigint
                      ∷ signal_start sigint
                      ∷ signal_init sigterm
                      ∷ signal_start sigterm
                      ∷ []
                    else signal_init sigint ∷ signal_init sigterm ∷ []))),
  )
]

-- What a command meets when it is carried out: whether the callable returns an object, and what
-- the resolver and the sockets answer to a listen command.
pub record Answers : Type 0 where
  pub result : Option ℕ
  pub resolved : Option (List Address)
  pub reported : Option ℕ

-- One command, as the `switch` in `_event_loop_on_cmdq_ready` carries it out. (The reference that
-- the queue holds keeps the object of a listen command alive; an address without one is passed over.)
pub handle : Answers → Cmd → EventLoop → EventLoop × List Call
handle a c self =
    if c.id == cmd_callable
    then (
      self,
      gil_restore
          ∷ py_api
          ∷ py_call c.subject
          ∷ ((elim a.result [ none ↦ py_api ∷ [] | some r ↦ py_decref r ∷ [] ])
              ++ py_api ∷ py_decref c.subject ∷ gil_save ∷ []),
    )
    else (if c.id == cmd_listen_cmd_01
        then elim (self.objects c.subject) [
          | none ↦ (self, [])
          | some o ↦
              let linked = record (o.cmd) { next = self.listen_commands } in
              let (listen_cmd, calls) =
                listen_cmd_xschedule_01 linked
                  (record { on_error = self.on_error; result = a.reported }) a.resolved in
              (
                record self {
                  listen_commands = c.subject;
                  objects =
                      update self.objects c.subject
                        (some (record { cmd = listen_cmd; refs = o.refs }));
                },
                calls,
              )
        ]
        else (self, gil_restore ∷ py_api ∷ py_api ∷ py_api ∷ py_api ∷ gil_save ∷ []))

-- The puts that other threads and the callables make between two turns.
pub put_all : CmdQ → List Cmd → CmdQ
put_all q [] = q
put_all q (c ∷ cs) = put_all (cmd_q_put q true c.id c.subject).0 cs

abbrev pub is_negative : ℤ → Bool
is_negative (pos n) = false
is_negative (negsuc n) = true

abbrev pub is_zero : ℤ → Bool
is_zero (pos n) = n == 0
is_zero (negsuc n) = false

-- `_event_loop_on_cmdq_ready`, on fuel: `none` means that it ran out. `turn` numbers the turns, each
-- of which has its own answers; `arrivals` are the puts before each turn. The calls of `cmd_q_get`
-- are left out of the trace; they touch the queue's mutex alone.
pub on_cmdq_ready :
    ℕ
    → (ℕ → Answers)
    → ℕ
    → List (List Cmd)
    → CmdQ
    → EventLoop
    → Option (CmdQ × EventLoop × List Call)
unfolding put_all
on_cmdq_ready zero answers turn arrivals q self = none
on_cmdq_ready (suc fuel) answers turn arrivals q self =
    let (q', qsize, taken, _) = cmd_q_get (put_all q (now_or_nil arrivals)) in
    if is_negative qsize then some (q', self, []) else elim taken [
      | none ↦ none
      | some c ↦
          let (self', calls) = handle (answers turn) c self in
          if is_zero qsize
          then some (q', self', calls)
          else (elim (on_cmdq_ready fuel answers (turn + 1) (later_or_nil arrivals) q' self') [
            | none ↦ none
            | some (q'', self'', more) ↦ some (q'', self'', calls ++ more)
          ])
    ]
