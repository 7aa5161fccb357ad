-- ===== src/Greenev/Program/Keeping.antt =====
-- The turns of the I/O thread of greenev, and the end of each of the two threads.
use striga2_pocs.Base.{
  ℕ, ◌≡◌, ◌∙◌, ap, subst, inl, inr, Bool, true, false, Option, none, some, List, [], ◌∷◌, ◌++◌,
  length, length-append, arith,
}
use striga2_pocs.Calls.{Call, count}
use striga2_pocs.Fifo.{admit}
use striga2_pocs.Greenev.Cmd.{Cmd}
use striga2_pocs.Greenev.CmdQEv.{put_all, watcher_cmd_q_put}
use striga2_pocs.Greenev.CmdQEv.Drain.{Keeps, put_all-Keeps}
use striga2_pocs.Greenev.IoThread.{SockObj}
use striga2_pocs.Greenev.App.{Application, application_command, app_cmd_io_thread_exit}
use striga2_pocs.Greenev.App.Shutdown.{exits, is_exit}
use striga2_pocs.Greenev.IoThread.Life.{io_thread_cleanup}
use striga2_pocs.Greenev.IoThread.Life.Whole.{thread_exit as io_thread_exit}
use striga2_pocs.Greenev.PyApi.{py_thread_cleanup}
use striga2_pocs.Greenev.PyApi.Thread.{thread_exit as py_thread_exit}
use striga2_pocs.Greenev.System.{System, Step}
use striga2_pocs.Greenev.System.Steps.{Stepped}
use striga2_pocs.Greenev.System.Conserved.{step-Stepped}
use striga2_pocs.Greenev.Program.{Program, stopping, gone, system_of, Allowed, stage_after}
use striga2_pocs.Greenev.Program.Sound.{
  of_id, of_id-admit, carried_out, exits-append, admit-one, io_left, py_left, remaining, Sound,
  Turned,
}
use striga2_pocs.Greenev.Program.Stepping.{step_puts_no_die, step_stays, step_left, step_holds_die}

-- What a put of an exit leaves to the application.
abbrev telling : Application → Cmd → Application
telling app c = record app { app_cmd_q = (watcher_cmd_q_put app.app_cmd_q c.id c.arg).0 }

module _ (io_arg app_arg : ℕ) (p : Program) (sound : Sound io_arg app_arg p) where
  telling-Keeps :
      (c : Cmd) → Keeps (telling p.app c).app_cmd_q 256 app_arg (admit 255 p.told (c ∷ []))
  unfolding put_all
  telling-Keeps c = put_all-Keeps p.app.app_cmd_q 256 app_arg p.told (c ∷ []) sound.app_keeps

  told_one : (c : Cmd) → admit 255 p.told (c ∷ []) ≡ p.told ++ c ∷ []
  told_one c = admit-one 255 p.told c (omega (arith, sound.few))

  -- The I/O thread ends.
  pub io_ends-Turned :
      (arg : ℕ) (app' : Application) (calls : List Call)
      → p.io_stage ≡ stopping
      → io_thread_cleanup p.app.io_thread (some p.app) arg ≡ (some app', calls)
      → Turned io_arg app_arg p [] (record p {
        app = app';
        told = admit 255 p.told (io_thread_exit arg ∷ []);
        io_stage = gone;
      })
  unfolding Turned io_thread_cleanup application_command remaining exits is_exit count
  io_ends-Turned arg app' calls stage e =
      let c = io_thread_exit arg in
      let made : telling p.app c ≡ app' =
        ap (λ (r : Option Application × List Call). elim r.0 [ none ↦ p.app | some a ↦ a ]) e in
      subst
        (λ a.
          Turned io_arg app_arg p []
            (record p { app = a; told = admit 255 p.told (c ∷ []); io_stage = gone }))
        made
        (
          omega (arith, ap io_left stage, ap exits (told_one c), exits-append p.told (c ∷ [])),
          record {
            io_keeps = sound.io_keeps;
            app_keeps = telling-Keeps c;
            few = omega (
              arith,
              sound.few,
              ap io_left stage,
              ap length (told_one c),
              length-append {0} p.told (c ∷ []),
            );
            status = sound.status;
            phase = elim sound.phase [
              | inl r ↦ absurd (cc (r.stage, stage))
              | inr d ↦ inr (record {
                phase = d.phase;
                die_put = omega (arith, d.die_put, ap carried_out stage);
              })
            ];
          },
        )

  -- The Python thread ends.
  pub py_ends-Turned :
      (arg : ℕ) (app' : Application) (calls : List Call)
      → p.py_alive ≡ true
      → py_thread_cleanup (some p.app) arg ≡ (some app', calls)
      → Turned io_arg app_arg p [] (record p {
        app = app';
        told = admit 255 p.told (py_thread_exit arg ∷ []);
        py_alive = false;
      })
  unfolding Turned py_thread_cleanup application_command remaining exits is_exit count of_id
  py_ends-Turned arg app' calls alive e =
      let c = py_thread_exit arg in
      let made : telling p.app c ≡ app' =
        ap (λ (r : Option Application × List Call). elim r.0 [ none ↦ p.app | some a ↦ a ]) e in
      subst
        (λ a.
          Turned io_arg app_arg p []
            (record p { app = a; told = admit 255 p.told (c ∷ []); py_alive = false }))
        made
        (
          omega (arith, ap py_left alive, ap exits (told_one c), exits-append p.told (c ∷ [])),
          record {
            io_keeps = sound.io_keeps;
            app_keeps = telling-Keeps c;
            few = omega (
              arith,
              sound.few,
              ap py_left alive,
              ap length (told_one c),
              length-append {0} p.told (c ∷ []),
            );
            status = sound.status;
            phase = elim sound.phase [
              | inl r ↦ inl (record {
                phase = r.phase;
                stage = r.stage;
                no_die = r.no_die;
                no_exit =
                    omega
                      (arith, r.no_exit, of_id-admit app_cmd_io_thread_exit 255 p.told (c ∷ []));
                py_untold = r.py_untold;
              })
              | inr d ↦ inr (record { phase = d.phase; die_put = d.die_put })
            ];
          },
        )

  -- The I/O thread works, or another thread gives it work.
  pub works-Turned :
      (memory : ℕ → SockObj) (intact : ℕ → Bool) (s' : System) (calls : List Call)
      (step : Step memory intact 256 (system_of p) calls s')
      → ((address : ℕ) → intact address ≡ true)
      → Allowed memory intact p.io_stage step
      → Turned io_arg app_arg p [] (record p {
        app = record (p.app) { io_thread = s'.thread };
        waiting = s'.waiting;
        lost = s'.lost;
        io_stage = stage_after memory intact p.io_stage step;
      })
  unfolding Turned Stepped remaining count
  works-Turned memory intact s' calls step h a =
      let left = step_left memory intact io_arg p.io_stage step a in
      let (_, keeps) =
        step-Stepped memory intact 256 io_arg 0 (system_of p) s' calls h sound.io_keeps step in
      (
        omega (arith, left),
        record {
          io_keeps = keeps;
          app_keeps = sound.app_keeps;
          few = omega (arith, left, sound.few);
          status = sound.status;
          phase = elim sound.phase [
            | inl r ↦ inl (record {
              phase = r.phase;
              stage =
                  step_stays memory intact io_arg p.io_stage step sound.io_keeps r.no_die ∙ r.stage;
              no_die = step_puts_no_die memory intact io_arg p.io_stage step a r.no_die;
              no_exit = r.no_exit;
              py_untold = r.py_untold;
            })
            | inr d ↦ inr (record {
              phase = d.phase;
              die_put =
                  step_holds_die memory intact io_arg p.io_stage step sound.io_keeps d.die_put;
            })
          ];
        },
      )
