-- ===== src/Singlev/Main.antt =====
-- `main` of singlev/src/singlev.c.
use striga2_pocs.Base.{ℕ, ◌≡◌, refl, ◌∙◌, Bool, true, false, Option, some, List, ◌∷◌, ◌++◌, length}
use striga2_pocs.Calls.{Call, returns, aborts, log, gil_after, gil_after-append}
use striga2_pocs.Singlev.CmdQ.{Cmd}
use striga2_pocs.Singlev.RunModule.{Answers}
use striga2_pocs.Singlev.App.{Ran, ran, asserted, still_running, application_ctor, application_dtor}
use striga2_pocs.Singlev.Api.{PyCall, application_start}
use striga2_pocs.Singlev.Api.Steps.{AllFinishing}
use striga2_pocs.Singlev.Api.Life.{application_life}

-- `major` and `minor` say whether the version of libev fits; the other arguments are those of the
-- constructor and of the start. The log is set up and flushed without a trace.
unfoldable pub main :
    (major minor : Bool) → Option (List Cmd) → (this : ℕ) → Answers → List PyCall → Ran ℕ
main false minor memory this answers module_ = asserted
main true false memory this answers module_ = asserted
main true true memory this answers module_ = elim (application_ctor false false true memory this) [
  | aborts ↦ asserted
  | returns (made, making) ↦ elim (application_start made answers module_) [
    | asserted ↦ asserted
    | still_running ↦ still_running
    | ran (started, ret) running ↦ elim (application_dtor started) [
      | aborts ↦ asserted
      | returns (gone, ending) ↦ ran ret (making ++ (running ++ log ∷ ending))
    ]
  ]
]

-- With the right libev and memory for the queue, the program comes to its end with exit code 0,
-- whatever the Python module does, as long as in each use of the event loop one call of `ev_run`
-- returns false; and it holds the interpreter lock then.
main-returns :
    (owner : ℕ) (cells : List Cmd) (answers : Answers) (module_ : List PyCall)
    → length cells ≡ 128
    → AllFinishing module_
    → (calls : List Call) × (main true true (some cells) owner answers module_ ≡ ran 0 calls)
      × (gil_after true calls ≡ some true)
unfolding main gil_after
main-returns owner cells answers module_ h f =
    let (made, started, gone, making, running, ending, c, s, d, g, g', g'', _, _, _, _) =
      application_life owner cells answers module_ h f in
    (
      making ++ (running ++ log ∷ ending),
      rw (main, c, s, d) refl,
      gil_after-append true true making (running ++ log ∷ ending) g
          ∙ gil_after-append true true running (log ∷ ending) g'
          ∙ g'',
    )
