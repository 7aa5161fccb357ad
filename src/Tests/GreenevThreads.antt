-- ===== src/Tests/GreenevThreads.antt =====
-- The two threads of greenev, from their start to their end.
use striga2_pocs.Base.{ℕ, ◌+◌, ◌≡◌, refl, true, false, none, some, List, [], ◌∷◌, ◌++◌, arith, pos}
use striga2_pocs.Calls.{
  Call, returns, py_new, py_decref, count, opens, closes, is_new, is_decref, is_io_start,
  is_io_stop, is_keeping, is_letting_go, gil_after,
}
use striga2_pocs.Greenev.CmdQEv.Drain.{Keeps}
use striga2_pocs.Greenev.IoBuffer.{io_buffer_of}
use striga2_pocs.Greenev.IoBuffer.Laws.{new-Fresh}
use striga2_pocs.Greenev.IoThread.{
  SockObj, IoThread, ended, iot_cmd_io_thread_listen, iot_cmd_io_thread_establish,
}
use striga2_pocs.Greenev.IoThread.Life.{IoEvent, command, accepting, ready, io_thread_start}
use striga2_pocs.Greenev.IoThread.Life.Accounts.{times, brought}
use striga2_pocs.Greenev.IoThread.Life.Events.{goes_on, all_go_on}
use striga2_pocs.Greenev.IoThread.Life.Whole as Whole
use striga2_pocs.Greenev.IoThread.Life.Whole.{die, io_thread_life}
use striga2_pocs.Greenev.App.{Application}
use striga2_pocs.Greenev.PyApi.{py_thread_start}
use striga2_pocs.Greenev.PyApi.Thread.{thread_exit, py_thread_start-ends}
use striga2_pocs.Singlev.RunModule.{Answers}
use striga2_pocs.Tests.GreenevIo.{socket_at, idle_queue, idle_queue-Keeps}

abbrev fresh_thread : IoThread
fresh_thread = record {
  listening = [];
  established = [];
  cmd_q = idle_queue;
  tmp_io_buf = io_buffer_of 8192 0;
}

abbrev app : Application
app = record {
  run_phase = 100;
  exit_status = 0;
  app_cmd_q = idle_queue;
  io_thread = fresh_thread;
  py_thread = record {
    cmd_q = record { q_size = 1; q_head = 0; q_tail = 0; q = record { id = 0; arg = 0 } ∷ [] };
  };
}

-- The socket objects that commands point to: one for each address, with the next descriptor.
abbrev memory : ℕ → SockObj
memory address = socket_at address (address + 1)

-- A listening socket comes, a connection is accepted on it and read from, and another is made.
abbrev events : List IoEvent
events =
    command (record { id = iot_cmd_io_thread_listen; arg = 10 })
    ∷ accepting (memory 10) false true (some (20, 0)) true 500
    ∷ ready (socket_at 500 20) true (pos 60000)
    ∷ command (record { id = iot_cmd_io_thread_establish; arg = 30 })
    ∷ []

events-go_on : all_go_on events ≡ true
unfolding all_go_on goes_on
events-go_on = refl

io_thread_life_example :
    (this' : IoThread) × (app' : Application) × (calls : List Call) × (io_thread_start memory
        (λ address. true)
        fresh_thread
        (some app)
        7
        (events ++ die 0 ∷ [])
      ≡ ended (this', some app') calls)
    × (this'.listening ≡ [])
    × (this'.established ≡ [])
    × (times 20 (opens calls) + times 20 (brought memory events) ≡ times 20 (closes calls))
    × (count (is_io_start 20) calls ≡ count (is_io_stop 20) calls)
    × (count is_letting_go calls ≡ count is_keeping calls + 1)
    × Keeps app'.app_cmd_q 3 77 (Whole.thread_exit 7 ∷ [])
io_thread_life_example =
    io_thread_life memory (λ address. true) fresh_thread app 3 77 7 8192 0 0 20 [] events
      (λ address. refl) refl (new-Fresh 8192 0 (omega arith) (omega arith)) events-go_on
      idle_queue-Keeps

-- A module that takes a reference and drops it, and then fails.
abbrev module_calls : List Call
module_calls = py_new 60 ∷ py_decref 60 ∷ []

abbrev answers : Answers
answers = record {
  runpy = some 51;
  runmodule = some 52;
  name = some 53;
  runargs = some 54;
  result = none;
}

balanced : count (is_new 60) module_calls ≡ count (is_decref 60) module_calls
unfolding count is_new is_decref
balanced = refl

locked : gil_after true module_calls ≡ some true
unfolding gil_after
locked = refl

py_thread_start-ends_example :
    (app' : Application) × (all : List Call) × (py_thread_start
        (some app)
        8
        (some 50)
        answers
        module_calls
      ≡ returns (some app', all))
    × Keeps app'.app_cmd_q 3 77 (thread_exit 8 ∷ [])
    × (count (is_new 60) all ≡ count (is_decref 60) all)
    × (gil_after false all ≡ some true)
py_thread_start-ends_example =
    py_thread_start-ends app 3 77 8 50 60 [] answers module_calls idle_queue-Keeps balanced locked
