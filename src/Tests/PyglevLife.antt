-- ===== src/Tests/PyglevLife.antt =====
-- The event loop of pyglev/pyglev/core/evloop.c from its start to its end, in two rounds.
use striga2_pocs.Base.{
  ℕ, ◌≡◌, refl, Bool, true, false, Option, none, some, List, [], ◌∷◌, ◌==◌, arith, if◌then◌else◌,
  pos,
}
use striga2_pocs.Calls.{Call, gil_after}
use striga2_pocs.Fifo.{admit}
use striga2_pocs.Pyglev.CmdQ.{Cmd, CmdQ}
use striga2_pocs.Pyglev.EstSocket.{Revents}
use striga2_pocs.Pyglev.ListenCmd.{Status, Connection}
use striga2_pocs.Pyglev.EventLoop.{EventLoop, Object, Answers}
use striga2_pocs.Pyglev.EventLoop.Drain.{Keeps}
use striga2_pocs.Pyglev.EventLoop.Life.{
  Loop, Handler, queue_ready, connects, ready, break_signal, puts, handled, on_handlers,
  event_loop_run,
}
use striga2_pocs.Pyglev.EventLoop.Life.Handlers.{Leaves}
use striga2_pocs.Pyglev.EventLoop.Life.Lock.{event_loop_run-Leaves}
use striga2_pocs.Pyglev.EventLoop.Life.Ends.{waiting_at_end, event_loop_run-returns}

abbrev cell : Cmd
cell = record { id = 0; subject = 5 }

abbrev no_commands : CmdQ
no_commands = record {
  size = 3;
  head = 0;
  tail = 0;
  owner = some 1;
  queue = cell ∷ cell ∷ cell ∷ [];
}

no_commands-Keeps : Keeps no_commands 3 []
no_commands-Keeps = (
  refl,
  record {
    small = omega arith;
    cells = record {
      room = refl;
      fits = omega arith;
      tail_in = omega arith;
      meets = refl;
      window = tt;
    };
  },
)

-- A listening command at the address 7, with two references.
abbrev one_object : ℕ → Option Object
one_object p =
    if p == 7
    then some (record {
      cmd = record {
        next = 0;
        on_accept = some 30;
        host = none;
        port = "8080";
        backlog = 20;
        status = Status.listening;
        watchers_count = 1;
        watchers = some (3 ∷ []);
      };
      refs = 2;
    })
    else none

abbrev one_listening : EventLoop
one_listening = record {
  on_error = none;
  listen_commands = 7;
  established_sockets = [];
  objects = one_object;
}

abbrev answering : ℕ → Answers
answering turn = record { result = some turn; resolved = none; reported = none }

abbrev readable : Revents
readable = record { is_read = true; is_write = false; is_error = false }

abbrev refused : Connection
refused = record { client = some 8; protocol = none; memory = true; config = none }

-- A callable is called, a connection is refused, and a socket is closed by its peer.
abbrev first_round : List Handler
first_round =
    queue_ready 4 answering ((cell ∷ []) ∷ [])
    ∷ connects 7 none readable refused
    ∷ ready (record { protocol = 31; fd = 9 }) readable (pos 0) none
    ∷ []

-- Before `ev_run` returns false, another thread puts a command.
abbrev two_rounds : List (List Handler × Bool)
two_rounds = (first_round, true) ∷ (puts (cell ∷ []) ∷ [], false) ∷ []

one_waits : waiting_at_end 3 two_rounds [] ≡ cell ∷ []
unfolding admit
one_waits = refl

event_loop_run-returns_example :
    (l : Loop) × (calls : List Call) × (event_loop_run two_rounds
        (record { q = no_commands; self = one_listening })
      ≡ handled l calls)
    × Keeps l.q 3 (waiting_at_end 3 two_rounds [])
    × (gil_after true calls ≡ some true)
event_loop_run-returns_example =
    event_loop_run-returns 3 no_commands [] one_listening two_rounds no_commands-Keeps
      ((omega arith, ((λ e. cc e), (tt, tt))), (tt, tt))

abbrev broken_off : List Handler
broken_off = break_signal 2 3 true true (λ fd. false) ∷ []

event_loop_run-Leaves_example :
    Leaves true
      (event_loop_run ((broken_off, false) ∷ []) (record { q = no_commands; self = one_listening }))
    × Leaves false (on_handlers broken_off (record { q = no_commands; self = one_listening }))
event_loop_run-Leaves_example =
    event_loop_run-Leaves ((broken_off, false) ∷ []) broken_off
      (record { q = no_commands; self = one_listening })
