-- ===== src/Greenev/Program/Stepping.antt =====
-- The steps of the system of the I/O thread of greenev, as the program sees them: what they do with
-- the command DIE, and how far the thread is after them.
use striga2_pocs.Base.{
  ℕ, ◌+◌, ◌≤◌, ◌≡◌, ◌≢◌, refl, ap, inl, inr, Bool, Option, none, some, List, [], ◌∷◌, ◌++◌, ◌==◌,
  arith, Bool-cases, if◌then◌else◌,
}
use striga2_pocs.Calls.{Call}
use striga2_pocs.Fifo.{admit}
use striga2_pocs.Greenev.Cmd.{Cmd}
use striga2_pocs.Greenev.CmdQEv.Drain.{Keeps}
use striga2_pocs.Greenev.IoThread.{SockObj, iot_cmd_io_thread_die}
use striga2_pocs.Greenev.IoThread.Connecting.Listen.{commands}
use striga2_pocs.Greenev.System.{
  System, die_cmd, establishing, refused, rest, Step, listens, connects, dies, takes, accepts,
  reads,
}
use striga2_pocs.Greenev.System.Steps.{oldest}
use striga2_pocs.Greenev.Program.{IoStage, serving, stopping, gone, Allowed, stage_after}
use striga2_pocs.Greenev.Program.Sound.{of_id, of_id-append, of_id-admit, carried_out, io_left}

commands-no_die : (objects : List SockObj) → of_id iot_cmd_io_thread_die (commands objects) ≡ 0
unfolding of_id
commands-no_die [] = refl
commands-no_die (s ∷ objects) = omega (arith, commands-no_die objects)

establishing-no_die : (made : Option SockObj) → of_id iot_cmd_io_thread_die (establishing made) ≡ 0
unfolding of_id
establishing-no_die none = refl
establishing-no_die (some s) = refl

of_id-rest : (id : ℕ) (xs : List Cmd) → of_id id (rest xs) ≤ of_id id xs
unfolding of_id
of_id-rest id [] = omega arith
of_id-rest id (x ∷ xs) = omega arith

module _ (memory : ℕ → SockObj) (intact : ℕ → Bool) (io_arg : ℕ) (stage : IoStage) where
  put_holds_die :
      (s : System) (cs : List Cmd)
      → 1
        ≤ of_id iot_cmd_io_thread_die s.waiting
          + of_id iot_cmd_io_thread_die s.lost
          + carried_out stage
      → 1
        ≤ of_id iot_cmd_io_thread_die (admit 255 s.waiting cs)
          + of_id iot_cmd_io_thread_die (refused 255 s.waiting cs ++ s.lost)
          + carried_out stage
  put_holds_die s cs h = omega (
    arith,
    of_id-admit iot_cmd_io_thread_die 255 s.waiting cs,
    of_id-append iot_cmd_io_thread_die (refused 255 s.waiting cs) s.lost,
  )

  -- Only the main thread puts the command DIE.
  pub step_puts_no_die :
      {s s' : System} {calls : List Call} (step : Step memory intact 256 s calls s')
      → Allowed memory intact stage step
      → of_id iot_cmd_io_thread_die s.waiting ≡ 0
      → of_id iot_cmd_io_thread_die s'.waiting ≡ 0
  step_puts_no_die (listens s resolved placed) a h =
      omega (arith, of_id-admit iot_cmd_io_thread_die 255 s.waiting (commands _), commands-no_die)
  step_puts_no_die (connects s resolved placed) a h =
      omega (
        arith,
        of_id-admit iot_cmd_io_thread_die 255 s.waiting (establishing _),
        establishing-no_die,
      )
  step_puts_no_die (dies s) a h = absurd a
  step_puts_no_die (takes s cmd thread' calls taken done_) a h =
      omega (arith, of_id-rest iot_cmd_io_thread_die s.waiting)
  step_puts_no_die (accepts s l is_error is_read client has_app address) a h = h
  step_puts_no_die (reads s sockobj is_read size thread' calls listed done_) a h = h

  -- So the thread stays in its loop until then.
  pub step_stays :
      {s s' : System} {calls : List Call} (step : Step memory intact 256 s calls s')
      → Keeps s.thread.cmd_q 256 io_arg s.waiting
      → of_id iot_cmd_io_thread_die s.waiting ≡ 0
      → stage_after memory intact stage step ≡ stage
  unfolding of_id
  step_stays (listens s resolved placed) k h = refl
  step_stays (connects s resolved placed) k h = refl
  step_stays (dies s) k h = refl
  step_stays (takes s cmd thread' calls taken done_) k h =
      let (ys, first, _) = oldest memory intact 256 io_arg 0 s.thread.cmd_q s.waiting cmd k taken in
      elim (Bool-cases (cmd.id == iot_cmd_io_thread_die)) [
        | inl e ↦
            let one : of_id iot_cmd_io_thread_die (cmd ∷ ys) ≡ 1 + of_id iot_cmd_io_thread_die ys =
              rw e refl in
            absurd (omega (arith, h, ap (of_id iot_cmd_io_thread_die) first, one))
        | inr e ↦ rw e refl
      ]
  step_stays (accepts s l is_error is_read client has_app address) k h = refl
  step_stays (reads s sockobj is_read size thread' calls listed done_) k h = refl

  pub step_left :
      {s s' : System} {calls : List Call} (step : Step memory intact 256 s calls s')
      → Allowed memory intact stage step
      → io_left (stage_after memory intact stage step) ≡ io_left stage
  step_left (listens s resolved placed) a = refl
  step_left (connects s resolved placed) a = refl
  step_left (dies s) a = refl
  step_left (takes s cmd thread' calls taken done_) a = told stage a
    where
      told :
          (stage : IoStage)
          → stage ≢ gone
          → io_left (if cmd.id == iot_cmd_io_thread_die then stopping else stage) ≡ io_left stage
      told serving n = ground arith
      told stopping n = ground arith
      told gone n = absurd (n refl)
  step_left (accepts s l is_error is_read client has_app address) a = refl
  step_left (reads s sockobj is_read size thread' calls listed done_) a = refl

  -- The command DIE is not forgotten.
  pub step_holds_die :
      {s s' : System} {calls : List Call} (step : Step memory intact 256 s calls s')
      → Keeps s.thread.cmd_q 256 io_arg s.waiting
      → 1
        ≤ of_id iot_cmd_io_thread_die s.waiting
          + of_id iot_cmd_io_thread_die s.lost
          + carried_out stage
      → 1
        ≤ of_id iot_cmd_io_thread_die s'.waiting
          + of_id iot_cmd_io_thread_die s'.lost
          + carried_out (stage_after memory intact stage step)
  unfolding of_id
  step_holds_die (listens s resolved placed) k h = put_holds_die s (commands _) h
  step_holds_die (connects s resolved placed) k h = put_holds_die s (establishing _) h
  step_holds_die (dies s) k h = put_holds_die s (die_cmd ∷ []) h
  step_holds_die (takes s cmd thread' calls taken done_) k h =
      let (ys, first, _) = oldest memory intact 256 io_arg 0 s.thread.cmd_q s.waiting cmd k taken in
      let behind : rest s.waiting ≡ ys = ap rest first in
      elim (Bool-cases (cmd.id == iot_cmd_io_thread_die)) [
        | inl e ↦ rw e (omega arith)
        | inr e ↦
            let same : of_id iot_cmd_io_thread_die (cmd ∷ ys) ≡ of_id iot_cmd_io_thread_die ys =
              rw e (omega arith) in
            rw e (
              omega (
                arith,
                h,
                ap (of_id iot_cmd_io_thread_die) first,
                ap (of_id iot_cmd_io_thread_die) behind,
                same,
              ))
      ]
  step_holds_die (accepts s l is_error is_read client has_app address) k h = h
  step_holds_die (reads s sockobj is_read size thread' calls listed done_) k h = h
