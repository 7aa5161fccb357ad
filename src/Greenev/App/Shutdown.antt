-- ===== src/Greenev/App/Shutdown.antt =====
-- How the application of greenev/app.c ends: what it tells its threads, and what keeps its event
-- loop running until both have ended.
use striga2_pocs.Base.{
  ℕ, ◌+◌, ◌≡◌, ◌≢◌, refl, inl, inr, Bool, true, false, some, List, [], ◌∷◌, ◌++◌, length, arith,
  ◌==◌, ==-cases, if◌then◌else◌,
}
use striga2_pocs.Calls.{
  Call, Outcome, returns, aborts, count, count-append, is_keeping, is_letting_go, loop_unref, log,
  signal_stop, cond_signal, mutex_lock, mutex_unlock,
}
use striga2_pocs.Greenev.Cmd.{Cmd}
use striga2_pocs.Greenev.CmdQEv.{watcher_cmd_q_put}
use striga2_pocs.Greenev.IoThread.{io_thread_die, iot_cmd_io_thread_die}
use striga2_pocs.Greenev.CmdQEv.Laws.{put-holds_nothing}
use striga2_pocs.Greenev.CmdQCv.Put.{put-at_once}
use striga2_pocs.Greenev.CmdQCv.Indices.{Represents}
use striga2_pocs.Greenev.CmdQCv.{CondCmdQ}
use striga2_pocs.Greenev.CmdQCv.Wait.{Wake}
use striga2_pocs.Greenev.App.{
  Creation, created, io_thread_ctor, py_thread_ctor, py_thread_die, Application, application_ctor,
  application_die, on_terminating_signal, on_application_cmd, app_run_phase_dying,
  app_run_phase_run, app_cmd_io_thread_exit, app_cmd_py_thread_exit,
}
use striga2_pocs.Greenev.App.Starting.{application_ctor-made}

-- The commands of the application carried out one by one, up to one that ends the process.
unfoldable pub on_application_cmds : Application → List Cmd → Outcome (List Call)
unfolding on_application_cmd
on_application_cmds this [] = returns []
on_application_cmds this (c ∷ cs) = elim (on_application_cmd this c) [
  | aborts ↦ aborts
  | returns calls ↦ elim (on_application_cmds this cs) [
    | aborts ↦ aborts
    | returns more ↦ returns (calls ++ more)
  ]
]

unfoldable pub is_exit : Cmd → Bool
is_exit c = if c.id == app_cmd_io_thread_exit then true else c.id == app_cmd_py_thread_exit

unfoldable pub exits : List Cmd → ℕ
exits [] = 0
exits (c ∷ cs) = (if is_exit c then 1 else 0) + exits cs

-- One command while the application is dying.
dying_step :
    (this : Application) (c : Cmd)
    → this.run_phase ≡ app_run_phase_dying
    → (calls : List Call) × (on_application_cmd this c ≡ returns calls)
      × (count is_letting_go calls ≡ (if is_exit c then 1 else 0))
      × (count is_keeping calls ≡ 0)
unfolding on_application_cmd is_exit count is_letting_go is_keeping
dying_step this c d = elim (==-cases c.id app_cmd_io_thread_exit) [
  | inl (t, _) ↦ (loop_unref ∷ [], rw (t, d) refl, rw t refl, refl)
  | inr (t, _) ↦ elim (==-cases c.id app_cmd_py_thread_exit) [
    | inl (u, _) ↦ (loop_unref ∷ [], rw (t, u, d) refl, rw (t, u) refl, refl)
    | inr (u, _) ↦ (log ∷ [], rw (t, u) refl, rw (t, u) refl, refl)
  ]
]

-- While the application is dying, no command ends the process, and each exit of a thread takes one
-- reference off the event loop; no other command does, and none adds one.
pub dying-releases :
    (this : Application) (cs : List Cmd)
    → this.run_phase ≡ app_run_phase_dying
    → (calls : List Call) × (on_application_cmds this cs ≡ returns calls)
      × (count is_letting_go calls ≡ exits cs)
      × (count is_keeping calls ≡ 0)
unfolding on_application_cmds on_application_cmd exits is_exit count is_letting_go is_keeping
dying-releases this [] d = ([], refl, refl, refl)
dying-releases this (c ∷ cs) d =
    let (calls, e, l, k) = dying_step this c d in
    let (more, e', l', k') = dying-releases this cs d in
    (
      calls ++ more,
      rw (e, e', on_application_cmds) refl,
      omega (arith, count-append is_letting_go calls more, l, l'),
      omega (arith, count-append is_keeping calls more, k, k'),
    )

-- The application once it has been told to end, and its Python thread through the queue given.
abbrev pub told_to_end : Application → CondCmdQ → Application
told_to_end app q = record app {
  run_phase = app_run_phase_dying;
  io_thread = record (app.io_thread) {
    cmd_q = (watcher_cmd_q_put app.io_thread.cmd_q iot_cmd_io_thread_die 0).0;
  };
  py_thread = record { cmd_q = q };
}

-- A terminating signal, where the queue of the Python thread is empty: both signal watchers go, and
-- each thread is told to end.
pub application_die-tells :
    (app : Application) (wakes : List (Wake CondCmdQ))
    → Represents app.py_thread.cmd_q 256 []
    → (q : CondCmdQ) × (calls : List Call) × (application_die app wakes
        ≡ returns (some (told_to_end app q, calls)))
      × Represents q 256 ((record { id = 1; arg = 0 }) ∷ [])
      × (count is_keeping calls ≡ 0)
      × (count is_letting_go calls ≡ 2)
unfolding application_die py_thread_die io_thread_die count is_keeping is_letting_go
application_die-tells app wakes r =
    let (q, e, r') = put-at_once app.py_thread.cmd_q 256 [] 1 0 wakes r (omega arith) in
    let put = (watcher_cmd_q_put app.io_thread.cmd_q iot_cmd_io_thread_die 0).2 in
    let (k, l) = put-holds_nothing app.io_thread.cmd_q iot_cmd_io_thread_die 0 in
    let more = mutex_lock ∷ cond_signal 1 ∷ mutex_unlock ∷ [] in
    (
      q,
      signal_stop 2 ∷ signal_stop 15 ∷ (put ++ more),
      rw (application_die, py_thread_die, e) refl,
      r',
      omega (arith, count-append is_keeping put more, k),
      omega (arith, count-append is_letting_go put more, l),
    )

-- From the constructor to the end: the application is made and runs, a terminating signal tells the
-- I/O thread and the Python thread to end, and commands arrive, up to two of them exits of threads.
-- Nothing ends the process, and what keeps the main event loop running exceeds what lets it go by
-- the number of the threads that have not ended. (The queues have their 256 cells, and both threads
-- are created.)
shutdown-waits_for_threads :
    (memory io_memory py_memory : List Cmd) (this start : ℕ) (creation creation' : Creation)
    (signum : ℕ) (cs : List Cmd) (running : ℕ)
    → length memory ≡ 256
    → length io_memory ≡ 256
    → length py_memory ≡ 256
    → created creation ≡ true
    → created creation' ≡ true
    → exits cs + running ≡ 2
    → (app app' : Application) × (made dying ended : List Call) × (application_ctor false true
          (some memory)
          this
          (io_thread_ctor true (some io_memory) start this creation)
          (py_thread_ctor false (some py_memory) creation')
        ≡ returns (app, made))
      × (on_terminating_signal (record app { run_phase = app_run_phase_run }) signum []
          ≡ returns (some (app', dying)))
      × (on_application_cmds app' cs ≡ returns ended)
      × (app'.io_thread.cmd_q ≡ (watcher_cmd_q_put app.io_thread.cmd_q iot_cmd_io_thread_die 0).0)
      × Represents app'.py_thread.cmd_q 256 ((record { id = 1; arg = 0 }) ∷ [])
      × (count is_keeping (made ++ (dying ++ ended))
          ≡ count is_letting_go (made ++ (dying ++ ended)) + running)
unfolding on_terminating_signal
shutdown-waits_for_threads memory io_memory py_memory this start creation creation' signum cs
      running s s' s'' c c' h =
    let (app, made, e, m) =
      application_ctor-made memory io_memory py_memory this start creation creation' s s' s'' c
        c' in
    let (q, dying, e', py_told, k, l) =
      application_die-tells (record app { run_phase = app_run_phase_run }) [] m.py_empty in
    let (ended, e'', l', k') = dying-releases (told_to_end app q) cs refl in
    (
      app,
      told_to_end app q,
      made,
      dying,
      ended,
      e,
      e',
      e'',
      refl,
      py_told,
      omega (
        arith,
        count-append is_keeping made (dying ++ ended),
        count-append is_letting_go made (dying ++ ended),
        count-append is_keeping dying ended,
        count-append is_letting_go dying ended,
        m.balance,
        k,
        l,
        k',
        l',
      ),
    )

-- Before a terminating signal, an exit of the I/O thread ends the process, and an exit of the Python
-- thread is logged and takes the thread's reference off the event loop all the same.
pub exits-before_dying :
    (this : Application) (arg : ℕ)
    → this.run_phase ≢ app_run_phase_dying
    → (on_application_cmd this (record { id = app_cmd_io_thread_exit; arg = arg }) ≡ aborts)
      × (on_application_cmd this (record { id = app_cmd_py_thread_exit; arg = arg })
          ≡ returns (log ∷ loop_unref ∷ []))
unfolding on_application_cmd
exits-before_dying this arg n = ground arith
