-- ===== src/Greenev/Program/MainThread.antt =====
-- The turns of the main thread of greenev/app.c: a terminating signal, and a command of a thread.
use striga2_pocs.Base.{
  ℕ, ◌+◌, ◌≡◌, refl, sym, ◌∙◌, ap, subst, inl, inr, Bool, false, some, List, [], ◌∷◌, ◌++◌, length,
  ◌==◌, arith, Bool-cases, if◌then◌else◌,
}
use striga2_pocs.Calls.{Call, count, is_keeping, is_letting_go, returns, log, loop_unref}
use striga2_pocs.Fifo.{admit}
use striga2_pocs.Greenev.Cmd.{Cmd}
use striga2_pocs.Greenev.CmdQEv.{take_cmd, put_all}
use striga2_pocs.Greenev.CmdQEv.Drain.{Keeps, put_all-Keeps}
use striga2_pocs.Greenev.CmdQCv.{CondCmdQ}
use striga2_pocs.Greenev.CmdQCv.Wait.{Wake}
use striga2_pocs.Greenev.App.{
  Application, on_terminating_signal, on_application_cmd, app_run_phase_run, app_run_phase_dying,
  app_cmd_io_thread_exit, app_cmd_py_thread_exit,
}
use striga2_pocs.Greenev.App.Shutdown.{exits, is_exit, told_to_end, application_die-tells}
use striga2_pocs.Greenev.IoThread.{SockObj, iot_cmd_io_thread_die}
use striga2_pocs.Greenev.System.{die_cmd, refused, rest}
use striga2_pocs.Greenev.System.Steps.{oldest}
use striga2_pocs.Greenev.Program.{Program}
use striga2_pocs.Greenev.Program.Sound.{of_id, of_id-append, of_id-admit, remaining, Sound, Turned}

-- What the calls for a command do to the main loop, on every branch that returns.
cmd-releases :
    (this : Application) (cmd : Cmd) (calls : List Call)
    → on_application_cmd this cmd ≡ returns calls
    → (count is_letting_go calls ≡ (if is_exit cmd then 1 else 0)) × (count is_keeping calls ≡ 0)
unfolding on_application_cmd is_exit count is_letting_go is_keeping
cmd-releases this cmd calls e = ground (arith, e)

module _ (io_arg app_arg : ℕ) (p : Program) (sound : Sound io_arg app_arg p) where
  -- A signal that ends the application.
  pub signals-Turned :
      (signum : ℕ) (wakes : List (Wake CondCmdQ)) (app' : Application) (calls : List Call)
      → p.app.run_phase ≡ app_run_phase_run
      → on_terminating_signal p.app signum wakes ≡ returns (some (app', calls))
      → Turned io_arg app_arg p calls (record p {
        app = app';
        waiting = admit 255 p.waiting (die_cmd ∷ []);
        lost = refused 255 p.waiting (die_cmd ∷ []) ++ p.lost;
      })
  unfolding Turned on_terminating_signal remaining put_all of_id
  signals-Turned signum wakes app' calls runs e = elim sound.phase [
    | inr d ↦ absurd (omega (arith, runs, d.phase))
    | inl r ↦
        let (q, calls', e', _, k, l) = application_die-tells p.app wakes r.py_untold in
        let both = sym e' ∙ e in
        let made : told_to_end p.app q ≡ app' = cc both in
        let traced : calls' ≡ calls = cc both in
        let before : (p.app.run_phase == app_run_phase_dying) ≡ false = ground arith in
        subst
          (λ a. Turned io_arg app_arg p calls (record p {
            app = a;
            waiting = admit 255 p.waiting (die_cmd ∷ []);
            lost = refused 255 p.waiting (die_cmd ∷ []) ++ p.lost;
          }))
          made
          (
            rw before (
                omega (arith, k, l, ap (count is_keeping) traced, ap (count is_letting_go) traced)),
            record {
              io_keeps =
                  put_all-Keeps p.app.io_thread.cmd_q 256 io_arg p.waiting (die_cmd ∷ [])
                    sound.io_keeps;
              app_keeps = sound.app_keeps;
              few = sound.few;
              status = sound.status;
              phase = inr (record {
                phase = refl;
                die_put = omega (
                  arith,
                  of_id-admit iot_cmd_io_thread_die 255 p.waiting (die_cmd ∷ []),
                  of_id-append iot_cmd_io_thread_die (refused 255 p.waiting (die_cmd ∷ [])) p.lost,
                );
              });
            },
          )
  ]

  -- A command of a thread.
  pub main_takes-Turned :
      (memory : ℕ → SockObj) (intact : ℕ → Bool) (cmd : Cmd) (calls : List Call)
      → (take_cmd p.app.app_cmd_q).1 ≡ some cmd
      → on_application_cmd (record (p.app) { app_cmd_q = (take_cmd p.app.app_cmd_q).0 }) cmd
        ≡ returns calls
      → Turned io_arg app_arg p calls (record p {
        app = record (p.app) { app_cmd_q = (take_cmd p.app.app_cmd_q).0 };
        told = rest p.told;
      })
  unfolding Turned remaining exits of_id
  main_takes-Turned memory intact cmd calls taken e =
      let (ys, first, k) =
        oldest memory intact 256 app_arg 0 p.app.app_cmd_q p.told cmd sound.app_keeps taken in
      let (l, none_kept) = cmd-releases _ cmd calls e in
      let behind : rest p.told ≡ ys = ap rest first in
      (
        omega (arith, l, none_kept, ap exits first, ap exits behind),
        record {
          io_keeps = sound.io_keeps;
          app_keeps = subst (Keeps (take_cmd p.app.app_cmd_q).0 256 app_arg) (sym behind) k;
          few = omega (arith, sound.few, ap length first, ap length behind);
          status = sound.status;
          phase = elim sound.phase [
            | inl r ↦ inl (record {
              phase = r.phase;
              stage = r.stage;
              no_die = r.no_die;
              no_exit = omega (
                arith,
                r.no_exit,
                ap (of_id app_cmd_io_thread_exit) first,
                ap (of_id app_cmd_io_thread_exit) behind,
              );
              py_untold = r.py_untold;
            })
            | inr d ↦ inr (record { phase = d.phase; die_put = d.die_put })
          ];
        },
      )

  -- The command taken out next never ends the process.
  pub cmd-returns :
      (memory : ℕ → SockObj) (intact : ℕ → Bool) (cmd : Cmd)
      → (take_cmd p.app.app_cmd_q).1 ≡ some cmd
      → (calls : List Call) × (on_application_cmd
            (record (p.app) { app_cmd_q = (take_cmd p.app.app_cmd_q).0 })
            cmd
          ≡ returns calls)
  unfolding on_application_cmd of_id
  cmd-returns memory intact cmd taken =
      let (ys, first, k) =
        oldest memory intact 256 app_arg 0 p.app.app_cmd_q p.told cmd sound.app_keeps taken in
      elim (Bool-cases (cmd.id == app_cmd_io_thread_exit)) [
        | inr t ↦ elim (Bool-cases (cmd.id == app_cmd_py_thread_exit)) [
          | inl u ↦ (
            (if p.app.run_phase == app_run_phase_dying then [] else log ∷ []) ++ loop_unref ∷ [],
            rw (t, u) refl,
          )
          | inr u ↦ (log ∷ [], rw (t, u) refl)
        ]
        | inl t ↦ elim sound.phase [
          | inr d ↦ (loop_unref ∷ [], rw (t, d.phase) refl)
          | inl r ↦
              let one : of_id app_cmd_io_thread_exit (cmd ∷ ys)
                  ≡ 1 + of_id app_cmd_io_thread_exit ys =
                rw t refl in
              absurd (omega (arith, r.no_exit, ap (of_id app_cmd_io_thread_exit) first, one))
        ]
      ]
