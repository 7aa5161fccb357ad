-- ===== src/Tests/PyglevQueue.antt =====
-- The queue of pyglev/pyglev/core/cmdq.c and the loop of evloop.c that drains it, on small queues.
use striga2_pocs.Base.{ℕ, ◌≡◌, refl, none, some, List, [], ◌∷◌, arith}
use striga2_pocs.Calls.{mutex_init, async_init, returns}
use striga2_pocs.Fifo.{Request, put, get, respond_all, serve_all, drained_once}
use striga2_pocs.Pyglev.CmdQ.{Cmd, CmdQ, cmd_q_new}
use striga2_pocs.Pyglev.CmdQ.Laws.{Represents}
use striga2_pocs.Pyglev.CmdQ.Refines.{cmd_q_queue, cmd_q-eq-fifo}
use striga2_pocs.Pyglev.EventLoop.{EventLoop, Answers, on_cmdq_ready}
use striga2_pocs.Pyglev.EventLoop.Drain.{Keeps, carried_out, on_cmdq_ready-carries_out}

abbrev call_five : Cmd
call_five = record { id = 0; subject = 5 }

abbrev listen_six : Cmd
listen_six = record { id = 50; subject = 6 }

abbrev cells : List Cmd
cells = call_five ∷ listen_six ∷ call_five ∷ []

abbrev two_queued : CmdQ
two_queued = record { size = 3; head = 2; tail = 0; owner = none; queue = cells }

two_queued-Represents : Represents two_queued (call_five ∷ listen_six ∷ [])
two_queued-Represents = record {
  small = omega arith;
  cells = record {
    room = refl;
    fits = omega arith;
    tail_in = omega arith;
    meets = refl;
    window = (refl, (refl, tt));
  };
}

abbrev idle : EventLoop
idle = record {
  on_error = none;
  listen_commands = 0;
  established_sockets = [];
  objects = λ p. none;
}

abbrev answering : ℕ → Answers
answering turn = record { result = some turn; resolved = none; reported = none }

abbrev requests : List (Request Cmd)
requests =
    put call_five ∷ put listen_six ∷ put call_five ∷ get ∷ put listen_six ∷ get ∷ get ∷ get ∷ []

cmd_q-eq-fifo_example :
    (q : CmdQ) × (cmd_q_new 3 (some cells) ≡ returns (some q, mutex_init ∷ async_init ∷ []))
    × (respond_all (cmd_q_queue 3) q requests ≡ serve_all 2 [] requests)
cmd_q-eq-fifo_example = cmd_q-eq-fifo 3 cells requests (omega arith) (omega arith) refl

on_cmdq_ready-carries_out_example :
    let arrivals = [] ∷ (call_five ∷ []) ∷ [] in
    let (self', calls) =
      carried_out answering 0 (drained_once 2 arrivals (call_five ∷ listen_six ∷ [])) idle in
    (q' : CmdQ) × (on_cmdq_ready 4 answering 0 arrivals two_queued idle ≡ some (q', self', calls))
    × Keeps q' 3 []
on_cmdq_ready-carries_out_example =
    on_cmdq_ready-carries_out 4 answering 0 ([] ∷ (call_five ∷ []) ∷ []) two_queued idle 3
      (call_five ∷ listen_six ∷ []) (refl, two_queued-Represents) (omega arith)
