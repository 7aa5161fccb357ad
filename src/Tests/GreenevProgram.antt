-- ===== src/Tests/GreenevProgram.antt =====
-- The program of greenev from its start on: a signal, the ends of its threads, and its exit.
use striga2_pocs.Base.{
  ℕ, zero, suc, ◌+◌, ◌<◌, ◌≡◌, ◌⊎◌, refl, Bool, true, false, some, List, [], ◌∷◌, ◌++◌, arith,
}
use striga2_pocs.Calls.{Call, returns, count, is_keeping, is_letting_go}
use striga2_pocs.Greenev.Cmd.{Cmd}
use striga2_pocs.Greenev.CmdQEv.{
  WatcherCmdQ, watcher_cmd_q_new, watcher_cmd_q_start, watcher_cmd_q_put, watcher_cmd_q_stop,
  take_cmd,
}
use striga2_pocs.Greenev.CmdQCv.{cond_cmd_q_new, cond_cmd_q_put}
use striga2_pocs.Greenev.IoBuffer.{io_buffer_new}
use striga2_pocs.Greenev.IoThread.{SockObj, ended, on_iot_cmd, io_thread_die}
use striga2_pocs.Greenev.System.{die_cmd, refused, takes}
use striga2_pocs.Fifo.{admit}
use striga2_pocs.Greenev.App.{
  Application, Creation, Round, io_thread_ctor, py_thread_ctor, application_ctor,
  on_terminating_signal, on_application_cmd, application_command, py_thread_die, app_run_phase_run,
}
use striga2_pocs.Greenev.IoThread.Life.{io_thread_cleanup}
use striga2_pocs.Greenev.IoThread.Life.Whole.{thread_exit as io_exit}
use striga2_pocs.Greenev.PyApi.{py_thread_cleanup}
use striga2_pocs.Greenev.PyApi.Thread.{thread_exit}
use striga2_pocs.Greenev.Program.{
  Program, stopping, gone, system_of, started, signalled, Turn, works, io_ends, main_takes, signals,
  py_ends, Turns, stays, goes,
}
use striga2_pocs.Greenev.Program.Sound.{remaining, AllEnded, Running, Dying}
use striga2_pocs.Greenev.Main.{main, ends, main-returns}
use striga2_pocs.Greenev.Program.Whole.{program-can_end}
use striga2_pocs.Greenev.Program.Whole.{main_loop-kept}

abbrev repeated : ℕ → List Cmd
repeated zero = []
repeated (suc n) = record { id = 0; arg = 0 } ∷ repeated n

abbrev cells : List Cmd
cells = repeated 256

abbrev well : Creation
well = record { block_err = 0; create_err = 0; restore_err = 0 }

abbrev sockets : ℕ → SockObj
sockets address = record {
  address = address;
  fd = 7;
  domain = 2;
  type = 1;
  protocol = 6;
  sockaddr = 0;
}

abbrev intact : ℕ → Bool
intact address = true

abbrev watcher_queue : WatcherCmdQ
watcher_queue = record { q_size = 256; q_head = 0; q_tail = 0; callbackarg = 5; q = cells }

-- The application that the constructor makes, and the calls.
abbrev app : Application
app = record {
  run_phase = 0;
  exit_status = 0;
  app_cmd_q = watcher_queue;
  io_thread = record {
    listening = [];
    established = [];
    cmd_q = watcher_queue;
    tmp_io_buf = (io_buffer_new 0).0;
  };
  py_thread = record { cmd_q = record { q_size = 256; q_head = 0; q_tail = 0; q = cells } };
}

abbrev made : List Call
made =
    Call.signal_init 2
    ∷ Call.signal_start 2
    ∷ Call.signal_init 15
    ∷ Call.signal_start 15
    ∷ Call.mutex_init
    ∷ Call.async_init
    ∷ Call.async_start
    ∷ Call.loop_unref
    ∷ Call.loop_ref
    ∷ Call.loop_new
    ∷ Call.mutex_init
    ∷ Call.async_init
    ∷ Call.log
    ∷ Call.mutex_init
    ∷ Call.thread_create
    ∷ Call.loop_ref
    ∷ Call.py_api
    ∷ Call.mutex_init
    ∷ Call.cond_init 0
    ∷ Call.cond_init 1
    ∷ Call.thread_create
    ∷ []

app_made :
    application_ctor false true
      (some cells)
      5
      (io_thread_ctor true (some cells) 0 5 well)
      (py_thread_ctor false (some cells) well)
    ≡ returns (app, made)
unfolding application_ctor io_thread_ctor py_thread_ctor watcher_cmd_q_new cond_cmd_q_new
    watcher_cmd_q_start io_buffer_new
app_made = refl

-- After SIGTERM, and after the end of the Python thread.
abbrev told_app : Application
told_app = record app {
  run_phase = 990;
  io_thread = record (app.io_thread) {
    cmd_q = record watcher_queue { q_head = 1; q = record { id = 1; arg = 0 } ∷ repeated 255 };
  };
  py_thread = record {
    cmd_q = record {
      q_size = 256;
      q_head = 1;
      q_tail = 0;
      q = record { id = 1; arg = 0 } ∷ repeated 255;
    };
  };
}

abbrev told_calls : List Call
told_calls =
    Call.signal_stop 2
    ∷ Call.signal_stop 15
    ∷ Call.mutex_lock
    ∷ Call.mutex_unlock
    ∷ Call.async_send
    ∷ Call.mutex_lock
    ∷ Call.cond_signal 1
    ∷ Call.mutex_unlock
    ∷ []

app_told :
    on_terminating_signal (record app { run_phase = app_run_phase_run }) 15 []
    ≡ returns (some (told_app, told_calls))
unfolding on_terminating_signal py_thread_die io_thread_die watcher_cmd_q_put cond_cmd_q_put
app_told = refl

abbrev py_gone_app : Application
py_gone_app = record told_app {
  app_cmd_q = record watcher_queue { q_head = 1; q = record { id = 2; arg = 9 } ∷ repeated 255 };
}

py_gone_told :
    py_thread_cleanup (some told_app) 9
    ≡ (some py_gone_app, Call.mutex_lock ∷ Call.mutex_unlock ∷ Call.async_send ∷ [])
unfolding py_thread_cleanup application_command watcher_cmd_q_put
py_gone_told = refl

abbrev after_signal : Program
after_signal = record (started app) { app = told_app; waiting = die_cmd ∷ [] }

abbrev after_py : Program
after_py = record after_signal { app = py_gone_app; told = thread_exit 9 ∷ []; py_alive = false }

to_signal : Turn sockets intact (started app) told_calls after_signal
unfolding admit refused
to_signal = signals (started app) 15 [] told_app told_calls refl app_told

to_py : Turns sockets intact (started app) (told_calls ++ []) after_py
unfolding admit
to_py =
    goes to_signal (goes (py_ends after_signal 9 py_gone_app _ refl py_gone_told) (stays after_py))

main_loop-kept_example :
    (count is_keeping (made ++ (told_calls ++ []))
      ≡ count is_letting_go (made ++ (told_calls ++ [])) + remaining after_py)
    × (Running after_py ⊎ Dying after_py)
    × (AllEnded after_py
        ⊎ (count is_letting_go (made ++ (told_calls ++ []))
            < count is_keeping (made ++ (told_calls ++ []))))
main_loop-kept_example =
    main_loop-kept sockets intact cells cells cells 5 0 well well app after_py made
      (told_calls ++ []) (λ address. refl) refl refl refl refl refl app_made to_py

program-can_end_example :
    (app' : Application) × (first : List Call) × (on_terminating_signal (started app).app 15 []
      ≡ returns (some (app', first)))
    × ((p' : Program) × (more : List Call) × Turns sockets intact
          (signalled (started app) app')
          more
          p'
        × AllEnded p'
        × (count is_keeping (made ++ ([] ++ (first ++ more)))
            ≡ count is_letting_go (made ++ ([] ++ (first ++ more)))))
program-can_end_example =
    program-can_end sockets intact cells cells cells 5 0 well well app (started app) made []
      (λ address. refl) refl refl refl refl refl app_made (stays (started app)) 15 [] refl
      (omega arith)

-- The I/O thread carries out DIE and ends, and the main thread takes both exits.
abbrev stopped_app : Application
stopped_app = record py_gone_app {
  io_thread = record (py_gone_app.io_thread) { cmd_q = (take_cmd told_app.io_thread.cmd_q).0 };
}

abbrev after_die : Program
after_die = record after_py { app = stopped_app; waiting = []; io_stage = stopping }

die_ends :
    on_iot_cmd sockets intact stopped_app.io_thread die_cmd
    ≡ ended stopped_app.io_thread (Call.loop_unref ∷ [])
unfolding on_iot_cmd
die_ends = refl

die_first : (take_cmd told_app.io_thread.cmd_q).1 ≡ some die_cmd
unfolding take_cmd
die_first = refl

to_die : Turn sockets intact after_py [] after_die
to_die =
    works after_py _ _
      (takes (system_of after_py) die_cmd stopped_app.io_thread _ die_first die_ends) (λ e. cc e)

abbrev io_gone_app : Application
io_gone_app = record stopped_app {
  app_cmd_q = record watcher_queue {
    q_head = 2;
    q = record { id = 2; arg = 9 } ∷ record { id = 1; arg = 6 } ∷ repeated 254;
  };
}

abbrev after_io : Program
after_io = record after_die {
  app = io_gone_app;
  told = thread_exit 9 ∷ io_exit 6 ∷ [];
  io_stage = gone;
}

io_gone_told : io_thread_cleanup stopped_app.io_thread (some stopped_app) 6 ≡ (
  some io_gone_app,
  Call.async_stop ∷ Call.mutex_lock ∷ Call.mutex_unlock ∷ Call.async_send ∷ [],
)
unfolding io_thread_cleanup application_command watcher_cmd_q_put watcher_cmd_q_stop
io_gone_told = refl

to_io : Turn sockets intact after_die [] after_io
unfolding admit
to_io = io_ends after_die 6 io_gone_app _ refl refl refl io_gone_told

-- The application with `n` commands taken.
abbrev taken_app : ℕ → Application
taken_app n = record io_gone_app { app_cmd_q = record (io_gone_app.app_cmd_q) { q_tail = n } }

abbrev after_all : Program
after_all = record after_io { app = taken_app 2; told = [] }

to_all : Turns sockets intact after_io (Call.loop_unref ∷ Call.loop_unref ∷ []) after_all
unfolding take_cmd on_application_cmd
to_all = goes (main_takes after_io (thread_exit 9) _ refl refl) (
    goes
      (main_takes (record after_io { app = taken_app 1; told = io_exit 6 ∷ [] }) (io_exit 6) _ refl
        refl)
      (stays after_all))

abbrev all_calls : List Call
all_calls = told_calls ++ Call.loop_unref ∷ Call.loop_unref ∷ []

to_end : Turns sockets intact (started app) all_calls after_all
unfolding admit
to_end = goes to_signal (
    goes (py_ends after_signal 9 py_gone_app _ refl py_gone_told) (goes to_die (goes to_io to_all)))

nothing_left : count is_keeping (made ++ all_calls) ≡ count is_letting_go (made ++ all_calls)
unfolding count is_keeping is_letting_go
nothing_left = refl

abbrev one_round : List Round
one_round = record { left = after_all.app; calls = all_calls; keep_running = false } ∷ []

main-returns_example :
    (all : List Call) × (main true true true
        (some cells)
        5
        (io_thread_ctor true (some cells) 0 5 well)
        (py_thread_ctor false (some cells) well)
        one_round
      ≡ returns (some (0, all)))
    × AllEnded after_all
main-returns_example =
    main-returns sockets intact cells cells cells 5 0 well well app after_all made all_calls
      (λ address. refl) refl refl refl refl refl app_made one_round (ends to_end) nothing_left
