-- ===== src/Greenev/Program/Runs.antt =====
-- Any number of turns of the threads of greenev, from the constructor of the application on.
use striga2_pocs.Base.{ℕ, ◌≡◌, refl, inl, Bool, true, List, arith}
use striga2_pocs.Calls.{Call, count, count-append, is_keeping, is_letting_go}
use striga2_pocs.Greenev.App.{Application}
use striga2_pocs.Greenev.App.Starting.{Made}
use striga2_pocs.Greenev.IoThread.{SockObj}
use striga2_pocs.Greenev.Program.{
  Program, started, Turn, works, io_ends, asks, py_ends, signals, main_takes, Turns, stays, goes,
}
use striga2_pocs.Greenev.Program.Sound.{of_id, Sound, Turned}
use striga2_pocs.Greenev.Program.Keeping.{works-Turned, io_ends-Turned, py_ends-Turned}
use striga2_pocs.Greenev.Program.Asking.{asks-Turned}
use striga2_pocs.Greenev.Program.MainThread.{signals-Turned, main_takes-Turned}

module _ (memory : ℕ → SockObj) (intact : ℕ → Bool) (io_arg app_arg : ℕ) where
  pub Turn-Turned :
      {p p' : Program} {calls : List Call}
      → ((address : ℕ) → intact address ≡ true)
      → Sound io_arg app_arg p
      → Turn memory intact p calls p'
      → Turned io_arg app_arg p calls p'
  Turn-Turned h sound (works p s' calls step a) =
      works-Turned io_arg app_arg p sound memory intact s' calls step h a
  Turn-Turned h sound (io_ends p arg app' calls stage no_listening no_established e) =
      io_ends-Turned io_arg app_arg p sound arg app' calls stage e
  Turn-Turned h sound (asks p etimedout timeout_ms wakes this' next calls alive t e) =
      asks-Turned io_arg app_arg p etimedout timeout_ms wakes this' next calls sound t e
  Turn-Turned h sound (py_ends p arg app' calls alive e) =
      py_ends-Turned io_arg app_arg p sound arg app' calls alive e
  Turn-Turned h sound (signals p signum wakes app' calls runs e) =
      signals-Turned io_arg app_arg p sound signum wakes app' calls runs e
  Turn-Turned h sound (main_takes p cmd calls taken e) =
      main_takes-Turned io_arg app_arg p sound memory intact cmd calls taken e

  pub Turns-Turned :
      {p p' : Program} {calls : List Call}
      → ((address : ℕ) → intact address ≡ true)
      → Sound io_arg app_arg p
      → Turns memory intact p calls p'
      → Turned io_arg app_arg p calls p'
  unfolding Turned count
  Turns-Turned h sound (stays p) = (refl, sound)
  Turns-Turned h sound (goes {calls = calls} {more = more} turn turns) =
      let (e, sound') = Turn-Turned h sound turn in
      let (e', sound'') = Turns-Turned h sound' turns in
      (
        omega (
          arith,
          e,
          e',
          count-append is_keeping calls more,
          count-append is_letting_go calls more,
        ),
        sound'',
      )

pub started-Sound :
    {app : Application} {made : List Call}
    → Made app made
    → Sound app.io_thread.cmd_q.callbackarg app.app_cmd_q.callbackarg (started app)
unfolding of_id
started-Sound m = record {
  io_keeps = m.io_empty;
  app_keeps = m.app_empty;
  few = omega arith;
  status = m.status;
  phase = inl (record {
    phase = refl;
    stage = refl;
    no_die = refl;
    no_exit = refl;
    py_untold = m.py_empty;
  });
}
