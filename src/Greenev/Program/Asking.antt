-- ===== src/Greenev/Program/Asking.antt =====
-- The turn of the Python thread of greenev/pythread.c that asks for its next command.
use striga2_pocs.Base.{
  ℕ, ◌≡◌, refl, sym, ◌∙◌, arith, ap, subst, inl, inr, true, some, List, [], ◌∷◌, length, ◌==◌,
}
use striga2_pocs.Calls.{Call, count, returns}
use striga2_pocs.Greenev.CmdQCv.{CondCmdQ, cond_cmd_q_empty}
use striga2_pocs.Greenev.CmdQCv.Wait.{Wake, Throughout}
use striga2_pocs.Greenev.CmdQCv.Indices.{Represents, empty_iff}
use striga2_pocs.Greenev.CmdQCv.Put.{Is}
use striga2_pocs.Greenev.App.{PyThread}
use striga2_pocs.Greenev.PyApi.{NextCmd, py_geapi_py_thread_next_cmd}
use striga2_pocs.Greenev.PyApi.Next.{NextResult, next_cmd-takes}
use striga2_pocs.Greenev.Program.{Program}
use striga2_pocs.Greenev.Program.Sound.{remaining, Sound, Turned}

-- An empty queue that nobody changes.
Throughout-empty :
    (q₀ : CondCmdQ) (wakes : List (Wake CondCmdQ)) (q : CondCmdQ)
    → Represents q₀ 256 []
    → Throughout cond_cmd_q_empty 1 (λ q. q ≡ q₀) wakes q
    → Throughout cond_cmd_q_empty 1 (Is (λ q. q ≡ q₀) 256) wakes q
Throughout-empty q₀ [] q r t = (t, ([], subst (λ q. Represents q 256 []) (sym t) r))
Throughout-empty q₀ (w ∷ wakes) q r t = (
  (t.0, ([], subst (λ q. Represents q 256 []) (sym t.0) r)),
  Throughout-empty q₀ wakes w.after r t.1,
)

-- From an empty queue nothing is taken.
asks-nothing :
    (this this' : PyThread) (etimedout timeout_ms : ℕ) (wakes : List (Wake CondCmdQ))
    (next : NextCmd) (calls : List Call)
    → Represents this.cmd_q 256 []
    → Throughout cond_cmd_q_empty 1 (λ q. q ≡ this.cmd_q) wakes this.cmd_q
    → py_geapi_py_thread_next_cmd true true (some this) etimedout timeout_ms 0 wakes 0
      ≡ returns (some (some this', next, calls))
    → Represents this'.cmd_q 256 []
asks-nothing this this' etimedout timeout_ms wakes next calls r t e =
    let same = λ (q : CondCmdQ). q ≡ this.cmd_q in
    let result = subst (NextResult same 256) e (
      next_cmd-takes same 256 etimedout this timeout_ms wakes
        (Throughout-empty this.cmd_q wakes this.cmd_q r t)) in
    elim (result.1) [
      | inl (before, x, xs, unchanged, r', _, _) ↦
          let two : true ≡ (length (x ∷ xs) == 0) =
            sym (empty_iff r) ∙ ap cond_cmd_q_empty (sym unchanged) ∙ empty_iff r' in
          absurd (ground (arith, two))
      | inr (_, unchanged) ↦ subst (λ q. Represents q 256 []) (sym unchanged) r
    ]

pub asks-Turned :
    (io_arg app_arg : ℕ) (p : Program) (etimedout timeout_ms : ℕ) (wakes : List (Wake CondCmdQ))
    (this' : PyThread) (next : NextCmd) (calls : List Call)
    → Sound io_arg app_arg p
    → Throughout cond_cmd_q_empty 1 (λ q. q ≡ p.app.py_thread.cmd_q) wakes p.app.py_thread.cmd_q
    → py_geapi_py_thread_next_cmd true true (some p.app.py_thread) etimedout timeout_ms 0 wakes 0
      ≡ returns (some (some this', next, calls))
    → Turned io_arg app_arg p [] (record p { app = record (p.app) { py_thread = this' } })
unfolding Turned remaining count
asks-Turned io_arg app_arg p etimedout timeout_ms wakes this' next calls sound t e = (
  refl,
  record {
    io_keeps = sound.io_keeps;
    app_keeps = sound.app_keeps;
    few = sound.few;
    status = sound.status;
    phase = elim sound.phase [
      | inl r ↦ inl (record {
        phase = r.phase;
        stage = r.stage;
        no_die = r.no_die;
        no_exit = r.no_exit;
        py_untold =
            asks-nothing p.app.py_thread this' etimedout timeout_ms wakes next calls r.py_untold t
              e;
      })
      | inr d ↦ inr (record { phase = d.phase; die_put = d.die_put })
    ];
  },
)
