-- ===== src/Singlev/App/Loop.antt =====
-- The event loop of singlev/src/app.c: that each of its handlers comes to an end, without a failed
-- assert, and what it leaves.
use striga2_pocs.Base.{
  ℕ, zero, suc, ◌+◌, ◌<◌, ◌≤◌, ◌≡◌, refl, ◌∙◌, ap, subst, ◌⊎◌, inl, inr, Bool, true, false, some,
  List, [], ◌∷◌, ◌++◌, length, arith, ◌==◌, ==-cases, List-cases, if◌then◌else◌,
}
use striga2_pocs.Calls.{
  Call, returns, log, signal_stop, count, count-append, gil_after, gil_after-append, is_keeping,
  is_letting_go,
}
use striga2_pocs.Fifo.{now_or_nil, later_or_nil, total, total_lem}
use striga2_pocs.Pyglev.CmdQ as Pyglev
use striga2_pocs.Singlev.CmdQ.{Cmd, CmdQ, cmd_q_put, cmd_q_get}
use striga2_pocs.Singlev.CmdQ.Laws.{
  Represents, put-holds, get-nothing, get-first, Apart, put-Apart, get-Apart, log-Apart,
  Apart-append,
}
use striga2_pocs.Singlev.App.{
  Application, LoopEvent, signal, ready, command, ran, application_die, on_terminating_signal,
  application_command, put_all, on_cmdq_ready, handle, on_events, application_run,
  app_run_phase_run, app_run_phase_dying,
}

put_all-holds :
    (q : CmdQ) (xs : List Pyglev.Cmd) (cs : List Cmd)
    → Represents q xs
    → (ys : List Pyglev.Cmd) × Represents (put_all q cs) ys × (length ys ≤ length xs + length cs)
unfolding put_all
put_all-holds q xs [] r = (xs, r, omega arith)
put_all-holds q xs (c ∷ cs) r =
    let (ys, r', l, _) = put-holds q xs c.id c.content r in
    let (zs, r'', l') = put_all-holds (cmd_q_put q true c.id c.content).0 ys cs r' in
    (zs, r'', omega (arith, l, l'))

-- With fuel above the number of the commands held and of those that arrive meanwhile, the handler of
-- the queue's watcher comes to an end.
on_cmdq_ready-ends :
    (fuel : ℕ) (arrivals : List (List Cmd)) (q : CmdQ) (xs : List Pyglev.Cmd)
    → Represents q xs
    → length xs + total arrivals < fuel
    → (q' : CmdQ) × (calls : List Call) × (on_cmdq_ready fuel arrivals q ≡ some (q', calls))
      × Apart calls
      × ((ys : List Pyglev.Cmd) × Represents q' ys)
unfolding on_cmdq_ready
on_cmdq_ready-ends zero arrivals q xs r h = absurd (omega arith)
on_cmdq_ready-ends (suc fuel) arrivals q xs r h =
    let q₁ = put_all q (now_or_nil arrivals) in
    let (ys, r₁, l) = put_all-holds q xs (now_or_nil arrivals) r in
    let (q₂, qsize, taken, calls) = cmd_q_get q₁ in
    let a = get-Apart q₁ in
    elim (List-cases ys) [
      | inl e ↦
          let (s, r₂) = get-nothing q₁ (subst (Represents q₁) e r₁) in
          (q₂, calls ++ log ∷ [], rw (on_cmdq_ready, s) refl, Apart-append a log-Apart, ([], r₂))
      | inr (c, cs, e) ↦
          let (s, r₂) = get-first q₁ c cs (subst (Represents q₁) e r₁) in
          elim (==-cases (length cs) 0) [
            | inl (t, _) ↦ (
              q₂,
              calls ++ log ∷ log ∷ [],
              rw (on_cmdq_ready, s, t) refl,
              Apart-append a (Apart-append log-Apart log-Apart),
              (cs, r₂),
            )
            | inr (t, _) ↦
                let fewer : length cs + total (later_or_nil arrivals) < fuel =
                  omega (arith, h, l, ap length e, total_lem arrivals) in
                let (q₃, more, ended, a', rest) =
                  on_cmdq_ready-ends fuel (later_or_nil arrivals) q₂ cs r₂ fewer in
                (
                  q₃,
                  calls ++ log ∷ more,
                  rw (on_cmdq_ready, s, t, ended) refl,
                  Apart-append a (Apart-append log-Apart a'),
                  rest,
                )
          ]
    ]

-- An application between its start and its end.
pub record Live (this : Application) : Type 0 where
  pub phase : (this.run_phase ≡ app_run_phase_run) ⊎ (this.run_phase ≡ app_run_phase_dying)
  pub held : List Pyglev.Cmd
  pub queue : Represents this.cmd_q held

-- The signal watchers, which keep the event loop running until the application is dying.
abbrev pub watching : Application → ℕ
watching this = if this.run_phase == app_run_phase_run then 2 else 0

-- One application goes over into another while the calls are made: with the interpreter lock held or
-- not as before, with nothing new that keeps the event loop running, and with as much that lets it
-- go as there are signal watchers less.
pub record Goes (b : Bool) (this this' : Application) (calls : List Call) : Type 0 where
  pub gil : gil_after b calls ≡ some b
  pub keeping : count is_keeping calls ≡ 0
  pub letting_go : count is_letting_go calls + watching this' ≡ watching this
  pub thread : this'.python_thread_state ≡ this.python_thread_state
  pub status : this'.exit_status ≡ this.exit_status
  pub live : Live this'

pub Goes-append :
    {b : Bool} {this this' this'' : Application} {cs ds : List Call}
    → Goes b this this' cs
    → Goes b this' this'' ds
    → Goes b this this'' (cs ++ ds)
Goes-append {b} {cs} {ds} c d = record {
  gil = gil_after-append b b cs ds c.gil ∙ d.gil;
  keeping = omega (arith, count-append is_keeping cs ds, c.keeping, d.keeping);
  letting_go = omega (arith, count-append is_letting_go cs ds, c.letting_go, d.letting_go);
  thread = d.thread ∙ c.thread;
  status = d.status ∙ c.status;
  live = d.live;
}

-- Calls apart from the lock and the loop, which leave all but the queue as it was.
pub Apart-Goes :
    (b : Bool) (this : Application) (q : CmdQ) (calls : List Call) (xs : List Pyglev.Cmd)
    → Live this
    → Apart calls
    → Represents q xs
    → Goes b this (record this { cmd_q = q }) calls
Apart-Goes b this q calls xs l a r = record {
  gil = a.gil b;
  keeping = a.keeping;
  letting_go = omega (arith, a.letting_go);
  thread = refl;
  status = refl;
  live = record { phase = l.phase; held = xs; queue = r };
}

pub application_die-Goes :
    (b : Bool) (this : Application)
    → Live this
    → (this' : Application) × (calls : List Call) × (application_die this ≡ returns (this', calls))
      × Goes b this this' calls
      × (this'.run_phase ≡ app_run_phase_dying)
unfolding application_die gil_after count is_keeping is_letting_go
application_die-Goes b this l = elim l.phase [
  | inl e ↦ (
    record this { run_phase = app_run_phase_dying },
    signal_stop 2 ∷ signal_stop 15 ∷ [],
    rw (application_die, e) refl,
    record {
      gil = ground arith;
      keeping = refl;
      letting_go = ground (arith, e);
      thread = refl;
      status = refl;
      live = record { phase = inr refl; held = l.held; queue = l.queue };
    },
    refl,
  )
  | inr e ↦ (
    this,
    [],
    rw (application_die, e) refl,
    record {
      gil = ground arith;
      keeping = refl;
      letting_go = ground (arith, e);
      thread = refl;
      status = refl;
      live = l;
    },
    e,
  )
]

pub application_command-Goes :
    (b : Bool) (this : Application) (cmd_id content : ℕ)
    → Live this
    → let (this', done, calls) = application_command this cmd_id content in Goes b this this' calls
unfolding application_command
application_command-Goes b this cmd_id content l =
    let (ys, r, _, _) = put-holds this.cmd_q l.held cmd_id content l.queue in
    Apart-Goes b this _ _ ys l (put-Apart this.cmd_q true cmd_id content) r

line_break-Apart : (signum : ℕ) → Apart (if signum == 2 then log ∷ [] else [])
unfolding gil_after count is_keeping is_letting_go
line_break-Apart signum = record {
  gil = λ b. ground arith;
  keeping = ground arith;
  letting_go = ground arith;
}

-- Every handler of the event loop comes to an end, without a failed assert.
pub handle-Goes :
    (b : Bool) (this : Application) (e : LoopEvent)
    → Live this
    → (this' : Application) × (calls : List Call) × (handle this e ≡ ran this' calls)
      × Goes b this this' calls
unfolding handle on_terminating_signal
handle-Goes b this (signal signum) l =
    let (this', calls, e, g, _) = application_die-Goes b this l in
    (
      this',
      (if signum == 2 then log ∷ [] else []) ++ calls,
      rw (handle, on_terminating_signal, e) refl,
      Goes-append (Apart-Goes b this this.cmd_q _ l.held l (line_break-Apart signum) l.queue) g,
    )
handle-Goes b this (ready arrivals) l =
    let (q, calls, e, a, (ys, r)) =
      on_cmdq_ready-ends (this.cmd_q.size + total arrivals) arrivals this.cmd_q l.held l.queue
        (omega (arith, l.queue.cells.fits)) in
    (record this { cmd_q = q }, calls, rw (handle, e) refl, Apart-Goes b this q calls ys l a r)
handle-Goes b this (command cmd_id content) l =
    let (this', done, calls) = application_command this cmd_id content in
    (this', calls, refl, application_command-Goes b this cmd_id content l)

-- And so do any number of them.
on_events-Goes :
    (b : Bool) (this : Application) (events : List LoopEvent)
    → Live this
    → (this' : Application) × (calls : List Call) × (on_events this events ≡ ran this' calls)
      × Goes b this this' calls
unfolding on_events gil_after count is_keeping is_letting_go
on_events-Goes b this [] l = (
  this,
  [],
  refl,
  record {
    gil = refl;
    keeping = refl;
    letting_go = omega arith;
    thread = refl;
    status = refl;
    live = l;
  },
)
on_events-Goes b this (e ∷ es) l =
    let (this', calls, one, g) = handle-Goes b this e l in
    let (this'', more, all, g') = on_events-Goes b this' es g.live in
    (this'', calls ++ more, rw (on_events, one, all) refl, Goes-append g g')

-- One of the calls of `ev_run` returns false.
abbrev pub Finishing : List (List LoopEvent × Bool) → Type 0
Finishing [] = ⊥
Finishing ((events, true) ∷ rounds) = Finishing rounds
Finishing ((events, false) ∷ rounds) = Unit

-- And so does the event loop once `ev_run` returns false, whatever happens while it runs.
pub application_run-Goes :
    (b : Bool) (this : Application) (rounds : List (List LoopEvent × Bool))
    → Live this
    → Finishing rounds
    → (this' : Application) × (calls : List Call) × (application_run this rounds ≡ ran this' calls)
      × Goes b this this' calls
unfolding application_run
application_run-Goes b this [] l f = absurd f
application_run-Goes b this ((events, false) ∷ rounds) l f =
    let (this', calls, one, g) = on_events-Goes b this events l in
    (this', calls, rw (application_run, one) refl, g)
application_run-Goes b this ((events, true) ∷ rounds) l f =
    let (this', calls, one, g) = on_events-Goes b this events l in
    let (this'', more, all, g') = application_run-Goes b this' rounds g.live f in
    (this'', calls ++ more, rw (application_run, one, all) refl, Goes-append g g')
