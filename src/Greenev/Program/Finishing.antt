-- ===== src/Greenev/Program/Finishing.antt =====
-- That the program of greenev can come to its end where DIE is the last command that waits.
use striga2_pocs.Base.{
  ℕ, ◌≡◌, ◌≢◌, refl, sym, ◌∙◌, ap, subst, inl, inr, Bool, true, false, List, [], ◌∷◌, ◌++◌, ◌==◌,
  Bool-cases, ==-cases, if◌then◌else◌, append_assoc,
}
use striga2_pocs.Calls.{Call}
use striga2_pocs.Greenev.Cmd.{Cmd}
use striga2_pocs.Greenev.CmdQEv.{take_cmd}
use striga2_pocs.Greenev.CmdQEv.Laws.{Represents, take_oldest}
use striga2_pocs.Greenev.App.{application_command, app_run_phase_dying}
use striga2_pocs.Greenev.App.Shutdown.{exits}
use striga2_pocs.Greenev.IoThread.{SockObj, IoThread, ended, on_iot_cmd, iot_cmd_io_thread_die}
use striga2_pocs.Greenev.IoThread.Life.{on_io_event, io_thread_cleanup}
use striga2_pocs.Greenev.IoThread.Life.Events.{command-Account}
use striga2_pocs.Greenev.IoThread.Life.Whole.{die-Account}
use striga2_pocs.Greenev.PyApi.{py_thread_cleanup}
use striga2_pocs.Greenev.System.{die_cmd, rest, takes}
use striga2_pocs.Greenev.Program.{
  Program, IoStage, stopping, gone, system_of, Turn, works, io_ends, py_ends, main_takes, Turns,
  stays, goes,
}
use striga2_pocs.Greenev.Program.Sound.{AllEnded, Sound, Turned}
use striga2_pocs.Greenev.Program.MainThread.{cmd-returns}
use striga2_pocs.Greenev.Program.Runs.{Turn-Turned}

module _ (memory : ℕ → SockObj) (intact : ℕ → Bool)
    (h : (address : ℕ) → intact address ≡ true) where
  -- Every command of the I/O thread comes to an end.
  handles :
      (this : IoThread) (cmd : Cmd)
      → (this' : IoThread) × (calls : List Call) × (on_iot_cmd memory intact this cmd
          ≡ ended this' calls)
  unfolding on_io_event
  handles this cmd = elim (==-cases cmd.id iot_cmd_io_thread_die) [
    | inr (d, _) ↦
        let (this', calls, e, _, _, _) = command-Account memory intact this cmd d in
        (this', calls, e)
    | inl (_, p) ↦
        let (calls, e, _) = die-Account memory intact this cmd.arg h in
        let same : record { id = iot_cmd_io_thread_die; arg = cmd.arg } ≡ cmd =
          ap (λ (i : ℕ). record { id = i; arg = cmd.arg }) (sym p) in
        (
          record this { listening = []; established = [] },
          calls,
          ap (on_iot_cmd memory intact this) (sym same) ∙ e,
        )
  ]

  pub Turns-append :
      {p p' p'' : Program} {calls more : List Call}
      → Turns memory intact p calls p'
      → Turns memory intact p' more p''
      → Turns memory intact p (calls ++ more) p''
  Turns-append (stays p) turns' = turns'
  Turns-append {p''} {more} (goes {p = p} {calls = first} {more = next} turn turns) turns' =
      subst (λ cs. Turns memory intact p cs p'') (sym (append_assoc first next more))
        (goes turn (Turns-append turns turns'))

  module _ (io_arg app_arg : ℕ) where
    -- There are turns that lead from one program to another, dying one with a property.
    abbrev Leads : (Program → Type 0) → Program → Type 0
    Leads P p =
        (p' : Program) × (calls : List Call) × Turns memory intact p calls p'
        × Sound io_arg app_arg p'
        × (p'.app.run_phase ≡ app_run_phase_dying)
        × P p'

    onward :
        (P Q : Program → Type 0) (p : Program)
        → Leads P p
        → ((p' : Program)
            → Sound io_arg app_arg p'
            → p'.app.run_phase ≡ app_run_phase_dying
            → P p'
            → Leads Q p')
        → Leads Q p
    onward P Q p (p', calls, turns, sound, d, holds) go =
        let (p'', more, turns', sound', d', holds') = go p' sound d holds in
        (p'', calls ++ more, Turns-append turns turns', sound', d', holds')

    lead_once :
        {p p' : Program} {calls : List Call} (P : Program → Type 0)
        → Sound io_arg app_arg p
        → Turn memory intact p calls p'
        → p'.app.run_phase ≡ app_run_phase_dying
        → P p'
        → Leads P p
    unfolding Turned
    lead_once {p' = p'} {calls = calls} P sound turn d holds =
        let (_, sound') = Turn-Turned memory intact io_arg app_arg h sound turn in
        (p', calls ++ [], goes turn (stays p'), sound', d, holds)

    -- DIE has been carried out, and no watcher of a socket keeps the loop of the I/O thread running.
    record Quiet (p : Program) : Type 0 where
      pub stage : p.io_stage ≡ stopping
      pub no_listening : p.app.io_thread.listening ≡ []
      pub no_established : p.app.io_thread.established ≡ []

    -- The I/O thread after it has taken the command at the head of its queue.
    abbrev taken_one : Program → IoThread
    taken_one p = record (p.app.io_thread) { cmd_q = (take_cmd p.app.io_thread.cmd_q).0 }

    not_gone : (stage : IoStage) (b : Bool) → stage ≢ gone → (if b then stopping else stage) ≢ gone
    not_gone stage true n e = cc
    not_gone stage false n e = n e

    -- The I/O thread takes all commands that wait, of which DIE is the last.
    stops :
        (xs : List Cmd) (p : Program)
        → p.waiting ≡ xs ++ die_cmd ∷ []
        → Sound io_arg app_arg p
        → p.app.run_phase ≡ app_run_phase_dying
        → p.io_stage ≢ gone
        → Leads Quiet p
    unfolding on_io_event Turned
    stops [] p w sound d n =
        let q = p.app.io_thread.cmd_q in
        let (taken, _, _, _) =
          take_oldest q die_cmd [] (subst (Represents q) w sound.io_keeps.represents) in
        let (calls, e, _) = die-Account memory intact (taken_one p) die_cmd.arg h in
        let closed : IoThread = record (taken_one p) { listening = []; established = [] } in
        lead_once Quiet sound (works p _ calls (takes (system_of p) die_cmd closed calls taken e) n)
          d (record { stage = refl; no_listening = refl; no_established = refl })
    stops (c ∷ ys) p w sound d n =
        let q = p.app.io_thread.cmd_q in
        let (taken, _, _, _) =
          take_oldest q c (ys ++ die_cmd ∷ []) (subst (Represents q) w sound.io_keeps.represents) in
        let (this', calls, e) = handles (taken_one p) c in
        let p' : Program = record p {
          app = record (p.app) { io_thread = this' };
          waiting = rest p.waiting;
          io_stage = if c.id == iot_cmd_io_thread_die then stopping else p.io_stage;
        } in
        let turn : Turn memory intact p [] p' =
          works p _ calls (takes (system_of p) c this' calls taken e) n in
        let (_, sound') = Turn-Turned memory intact io_arg app_arg h sound turn in
        let (p'', more, turns, sound'', d', last) =
          stops ys p' (ap rest w) sound' d
            (not_gone p.io_stage (c.id == iot_cmd_io_thread_die) n) in
        (p'', more, goes turn turns, sound'', d', last)

    -- The main thread takes the commands that wait.
    takes_all :
        (xs : List Cmd) (p : Program)
        → p.told ≡ xs
        → Sound io_arg app_arg p
        → p.app.run_phase ≡ app_run_phase_dying
        → p.io_stage ≡ gone
        → p.py_alive ≡ false
        → Leads AllEnded p
    unfolding exits Turned
    takes_all [] p w sound d g f = (
      p,
      [],
      stays p,
      sound,
      d,
      record { dying = d; io_gone = g; py_gone = f; exits_taken = ap exits w },
    )
    takes_all (c ∷ ys) p w sound d g f =
        let q = p.app.app_cmd_q in
        let (taken, _, _, _) =
          take_oldest q c ys (subst (Represents q) w sound.app_keeps.represents) in
        let (calls, e) = cmd-returns io_arg app_arg p sound memory intact c taken in
        let p' : Program = record p {
          app = record (p.app) { app_cmd_q = (take_cmd q).0 };
          told = rest p.told;
        } in
        let turn : Turn memory intact p calls p' = main_takes p c calls taken e in
        let (_, sound') = Turn-Turned memory intact io_arg app_arg h sound turn in
        let (p'', more, turns, sound'', d', last) = takes_all ys p' (ap rest w) sound' d g f in
        (p'', calls ++ more, goes turn turns, sound'', d', last)

    io_gone_next :
        (p : Program)
        → Sound io_arg app_arg p
        → p.app.run_phase ≡ app_run_phase_dying
        → Quiet p
        → Leads (λ p'. p'.io_stage ≡ gone) p
    unfolding io_thread_cleanup application_command
    io_gone_next p sound d quiet =
        lead_once (λ p'. p'.io_stage ≡ gone) sound
          (io_ends p 0 _ _ quiet.stage quiet.no_listening quiet.no_established refl) d refl

    py_gone_next :
        (p : Program)
        → Sound io_arg app_arg p
        → p.app.run_phase ≡ app_run_phase_dying
        → p.io_stage ≡ gone
        → Leads (λ p'. (p'.io_stage ≡ gone) × (p'.py_alive ≡ false)) p
    unfolding py_thread_cleanup application_command
    py_gone_next p sound d g = elim (Bool-cases p.py_alive) [
      | inr f ↦ (p, [], stays p, sound, d, (g, f))
      | inl alive ↦
          lead_once (λ p'. (p'.io_stage ≡ gone) × (p'.py_alive ≡ false)) sound
            (py_ends p 0 _ _ alive refl) d (g, refl)
    ]

    pub finishes :
        (xs : List Cmd) (p : Program)
        → p.waiting ≡ xs ++ die_cmd ∷ []
        → Sound io_arg app_arg p
        → p.app.run_phase ≡ app_run_phase_dying
        → p.io_stage ≢ gone
        → Leads AllEnded p
    finishes xs p w sound d n =
        onward (λ p'. (p'.io_stage ≡ gone) × (p'.py_alive ≡ false)) AllEnded p
          (onward (λ p'. p'.io_stage ≡ gone) (λ p'. (p'.io_stage ≡ gone) × (p'.py_alive ≡ false)) p
            (onward Quiet (λ p'. p'.io_stage ≡ gone) p (stops xs p w sound d n) io_gone_next)
            py_gone_next)
          (λ p' sound' d' both. takes_all p'.told p' refl sound' d' both.0 both.1)
