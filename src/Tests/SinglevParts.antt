-- ===== src/Tests/SinglevParts.antt =====
-- The queue, the run of a module, the application and its listening sockets, of singlev.
use striga2_pocs.Base.{
  ℕ, zero, suc, ◌+◌, ◌≡◌, refl, ◌⊎◌, Bool, true, false, none, some, List, [], ◌∷◌, length,
}
use striga2_pocs.Calls.{
  Call, returns, py_new, py_decref, opens, closes, count, is_new, is_decref, is_keeping,
  is_letting_go, gil_after,
}
use striga2_pocs.Greenev.IoThread.Connecting.{Address}
use striga2_pocs.Greenev.IoThread.Connecting.Listen.{all_listen}
use striga2_pocs.Singlev.CmdQ.{Cmd, CmdQ}
use striga2_pocs.Singlev.CmdQ.Agrees.{
  pyglev_cmd_q, Operation, put, get, singlev_answers, pyglev_answers, answers-eq-pyglev,
}
use striga2_pocs.Singlev.RunModule.{Answers, pyutils_run_module, run_module-drops_all}
use striga2_pocs.Singlev.App.{
  Application, signal, ready, command, ran, application_ctor, application_dtor, app_run_phase_dying,
  app_run_phase_exit,
}
use striga2_pocs.Singlev.App.Listen.{application_listen, application_listen-leaks}
use striga2_pocs.Singlev.Api.{PyCall, run, listen, application_start}
use striga2_pocs.Singlev.Api.Life.{application_life}

abbrev blank : Cmd
blank = record { id = 0; content = 0 }

abbrev repeated : ℕ → List Cmd
repeated zero = []
repeated (suc n) = blank ∷ repeated n

abbrev three_cells : CmdQ
three_cells = record { size = 3; head = 2; tail = 1; owner = some 5; queue = repeated 3 }

abbrev uses : List Operation
uses = put true 1 11 ∷ put true 2 12 ∷ put false 3 13 ∷ get ∷ get ∷ get ∷ []

answers-eq-pyglev_example :
    singlev_answers three_cells uses ≡ pyglev_answers (pyglev_cmd_q three_cells) uses
answers-eq-pyglev_example = answers-eq-pyglev three_cells uses

-- A module that takes a reference and drops it, and then fails.
abbrev module_calls : List Call
module_calls = py_new 60 ∷ py_decref 60 ∷ []

abbrev answers : Answers
answers = record {
  runpy = some 51;
  runmodule = some 52;
  name = some 53;
  runargs = some 54;
  result = none;
}

balanced : count (is_new 60) module_calls ≡ count (is_decref 60) module_calls
unfolding count is_new is_decref
balanced = refl

locked : gil_after true module_calls ≡ some true
unfolding gil_after
locked = refl

run_module-drops_all_example :
    let (done, calls) = pyutils_run_module answers module_calls in
    (count (is_new 60) calls ≡ count (is_decref 60) calls)
    × (gil_after true calls ≡ some true)
    × (done ≡ false)
run_module-drops_all_example = run_module-drops_all answers module_calls 60 balanced locked

abbrev answer : ℕ → Bool → Address
answer fd succeeds = record {
  domain = 2;
  type = 1;
  protocol = 6;
  sockaddr = 0;
  named = true;
  socket = some fd;
  option_set = true;
  bound = true;
  succeeds = succeeds;
  place = 0;
}

abbrev second_fails : List Address
second_fails = answer 8 true ∷ answer 9 false ∷ []

application_listen-leaks_example :
    let calls = application_listen (some second_fails) in
    ((all_listen second_fails ≡ false) × (closes calls ≡ opens calls)
      ⊎ (all_listen second_fails ≡ true) × (length (opens calls) ≡ 2) × (closes calls ≡ []))
application_listen-leaks_example = application_listen-leaks second_fails

-- Python asks for a socket, enters the loop, where a command is printed and SIGINT comes, and enters
-- it again.
abbrev module_ : List PyCall
module_ =
    listen true
    ∷ run true ((ready ((blank ∷ []) ∷ []) ∷ command 7 0 ∷ [], true) ∷ (signal 2 ∷ [], false) ∷ [])
    ∷ run true (([], false) ∷ [])
    ∷ []

application_life_example :
    (made started gone : Application) × (making running ending : List Call) × (application_ctor
        false false true
        (some (repeated 128))
        5
      ≡ returns (made, making))
    × (application_start made answers module_ ≡ ran (started, 0) running)
    × (application_dtor started ≡ returns (gone, ending))
    × (gil_after true making ≡ some true)
    × (gil_after true running ≡ some true)
    × (gil_after true ending ≡ some true)
    × (started.run_phase ≡ app_run_phase_dying)
    × (started.python_thread_state ≡ false)
    × (count is_keeping making + count is_keeping running
        ≡ count is_letting_go making + count is_letting_go running)
    × (gone.run_phase ≡ app_run_phase_exit)
application_life_example = application_life 5 (repeated 128) answers module_ refl (tt, (tt, tt))
