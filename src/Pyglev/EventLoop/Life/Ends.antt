-- ===== src/Pyglev/EventLoop/Life/Ends.antt =====
-- That the event loop of pyglev/pyglev/core/evloop.c comes to its end where no signal breaks it.
use striga2_pocs.Base.{
  ℕ, ◌+◌, ◌-◌, ◌≤◌, ◌≡◌, ◌≢◌, refl, subst, inl, inr, Bool, true, false, Option, none, some, List,
  [], ◌∷◌, ◌++◌, ◌==◌, arith, Bool-cases, Option-cases,
}
use striga2_pocs.Calls.{Call, gil_restore, gil_save, gil_after}
use striga2_pocs.Fifo.{total, admit, drained_once}
use striga2_pocs.Pyglev.CmdQ.{CmdQ, Cmd}
use striga2_pocs.Pyglev.ListenCmd.{Reporter, on_listen_socket_io}
use striga2_pocs.Pyglev.EventLoop.{EventLoop, Object, Answers, update, handle, put_all}
use striga2_pocs.Pyglev.EventLoop.Drain.{
  Keeps, put_all-Keeps, carried_out, on_cmdq_ready-carries_out,
}
use striga2_pocs.Pyglev.EventLoop.Life.{
  Loop, Handler, queue_ready, connects, ready, break_signal, puts, Handled, handled, on_handler,
  on_handlers, run_rounds, event_loop_run,
}
use striga2_pocs.Pyglev.EventLoop.Life.Handlers.{Leaves}
use striga2_pocs.Pyglev.EventLoop.Life.Lock.{event_loop_run-Leaves}

-- There is an object at the address.
abbrev Known : ℕ → EventLoop → Type 0
Known p self = self.objects p ≢ none

update-Known :
    (self : EventLoop) (p q : ℕ) (objects : ℕ → Option Object) (o : Object)
    → self.objects p ≢ none
    → update self.objects q (some o) p ≢ none
update-Known self p q objects o k = elim (Bool-cases (p == q)) [
  | inl e ↦ rw e (λ n. cc n)
  | inr e ↦ rw e k
]

handle-Known :
    (a : Answers) (c : Cmd) (self : EventLoop) (p : ℕ) → Known p self → Known p (handle a c self).0
unfolding handle
handle-Known a c self p k = elim (Bool-cases (c.id == 0)) [
  | inl e ↦ rw e k
  | inr e ↦ elim (Bool-cases (c.id == 50)) [
    | inr e' ↦ rw (e, e') k
    | inl e' ↦ elim (Option-cases (self.objects c.subject)) [
      | inl s ↦ rw (e, e', s) k
      | inr (o, s) ↦ rw (e, e', s) (update-Known self p c.subject self.objects _ k)
    ]
  ]
]

carried_out-Known :
    (answers : ℕ → Answers) (turn : ℕ) (cs : List Cmd) (self : EventLoop) (p : ℕ)
    → Known p self
    → Known p (carried_out answers turn cs self).0
unfolding carried_out
carried_out-Known answers turn [] self p k = k
carried_out-Known answers turn (c ∷ cs) self p k =
    carried_out-Known answers (turn + 1) cs (handle (answers turn) c self).0 p
      (handle-Known (answers turn) c self p k)

-- What a handler needs to come to its end: more fuel than the queue may hold and commands arrive, and
-- an object of the listen command that it is called for. No signal breaks the loop.
abbrev pub Enough : ℕ → EventLoop → Handler → Type 0
Enough size self (queue_ready fuel answers arrivals) = size + total arrivals ≤ fuel
Enough size self (connects address result revents c) = self.objects address ≢ none
Enough size self (ready socket revents size_read config) = Unit
Enough size self (break_signal signum fuel int_active term_active errors) = ⊥
Enough size self (puts cs) = Unit

abbrev pub AllEnough : ℕ → EventLoop → List Handler → Type 0
AllEnough size self [] = Unit
AllEnough size self (h ∷ hs) = Enough size self h × AllEnough size self hs

-- And `ev_run` returns false once.
abbrev pub Finishing : ℕ → EventLoop → List (List Handler × Bool) → Type 0
Finishing size self [] = ⊥
Finishing size self ((hs, true) ∷ more) = AllEnough size self hs × Finishing size self more
Finishing size self ((hs, false) ∷ more) = AllEnough size self hs

-- The commands that wait in a queue of `size` cells after a handler: none once the queue's callback has
-- run, and those that are accepted behind the ones before.
abbrev pub waiting_after : ℕ → Handler → List Cmd → List Cmd
waiting_after size (queue_ready fuel answers arrivals) xs = []
waiting_after size (connects address result revents c) xs = xs
waiting_after size (ready socket revents size_read config) xs = xs
waiting_after size (break_signal signum fuel int_active term_active errors) xs = xs
waiting_after size (puts cs) xs = admit (size - 1) xs cs

abbrev pub waiting_after_all : ℕ → List Handler → List Cmd → List Cmd
waiting_after_all size [] xs = xs
waiting_after_all size (h ∷ hs) xs = waiting_after_all size hs (waiting_after size h xs)

-- And after the rounds up to the first that returns false.
abbrev pub waiting_at_end : ℕ → List (List Handler × Bool) → List Cmd → List Cmd
waiting_at_end size [] xs = xs
waiting_at_end size ((hs, true) ∷ more) xs = waiting_at_end size more (waiting_after_all size hs xs)
waiting_at_end size ((hs, false) ∷ more) xs = waiting_after_all size hs xs

module _ (size : ℕ) (self₀ : EventLoop) where
  -- Between two handlers the queue holds `xs`, and the objects of the beginning are there.
  record Between (l : Loop) (xs : List Cmd) : Type 0 where
    pub holds : Keeps l.q size xs
    pub known : (p : ℕ) → Known p self₀ → Known p l.self

  Comes : List Cmd → Handled → Type 0
  Comes xs h = (l : Loop) × (calls : List Call) × (h ≡ handled l calls) × Between l xs

  on_handler-Comes :
      (h : Handler) (l : Loop) (xs : List Cmd)
      → Enough size self₀ h
      → Between l xs
      → Comes (waiting_after size h xs) (on_handler h l)
  unfolding on_handler Comes
  on_handler-Comes (queue_ready fuel answers arrivals) l xs n b =
      let (q', e, k) =
        on_cmdq_ready-carries_out fuel answers 0 arrivals l.q l.self size xs b.holds
          (omega (arith, n, b.holds.0, b.holds.1.cells.fits)) in
      let cs = drained_once (size - 1) arrivals xs in
      let (self', calls) = carried_out answers 0 cs l.self in
      (
        record { q = q'; self = self' },
        calls,
        rw (e, on_handler) refl,
        record {
          holds = k;
          known = λ p known. carried_out-Known answers 0 cs l.self p (b.known p known);
        },
      )
  on_handler-Comes (connects address result revents c) l xs n b =
      elim (Option-cases (l.self.objects address)) [
        | inl s ↦ absurd (b.known address n s)
        | inr (o, s) ↦
            let reporter : Reporter = record { on_error = l.self.on_error; result = result } in
            let (established, calls) =
              on_listen_socket_io o.cmd reporter revents c l.self.established_sockets in
            (
              record l { self = record (l.self) { established_sockets = established } },
              calls,
              rw (s, on_handler) refl,
              record { holds = b.holds; known = b.known },
            )
      ]
  on_handler-Comes (ready socket revents size_read config) l xs n b = (l, _, refl, b)
  on_handler-Comes (break_signal signum fuel int_active term_active errors) l xs n b = absurd n
  on_handler-Comes (puts cs) l xs n b = (
    record l { q = put_all l.q cs },
    [],
    refl,
    record { holds = put_all-Keeps l.q size xs cs b.holds; known = b.known },
  )

  on_handlers-Comes :
      (hs : List Handler) (l : Loop) (xs : List Cmd)
      → AllEnough size self₀ hs
      → Between l xs
      → Comes (waiting_after_all size hs xs) (on_handlers hs l)
  unfolding on_handlers Comes
  on_handlers-Comes [] l xs n b = (l, [], refl, b)
  on_handlers-Comes (h ∷ hs) l xs (n, ns) b =
      let (l', calls, e, b') = on_handler-Comes h l xs n b in
      let (l'', more, e', b'') = on_handlers-Comes hs l' (waiting_after size h xs) ns b' in
      (l'', calls ++ more, rw (e, on_handlers, e') refl, b'')

  run_rounds-Comes :
      (rounds : List (List Handler × Bool)) (l : Loop) (xs : List Cmd)
      → Finishing size self₀ rounds
      → Between l xs
      → Comes (waiting_at_end size rounds xs) (run_rounds rounds l)
  unfolding run_rounds Comes
  run_rounds-Comes [] l xs n b = absurd n
  run_rounds-Comes ((hs, true) ∷ more) l xs (n, ns) b =
      let (l', calls, e, b') = on_handlers-Comes hs l xs n b in
      let (l'', later, e', b'') = run_rounds-Comes more l' (waiting_after_all size hs xs) ns b' in
      (l'', calls ++ later, rw (e, run_rounds, e') refl, b'')
  run_rounds-Comes ((hs, false) ∷ more) l xs n b =
      let (l', calls, e, b') = on_handlers-Comes hs l xs n b in
      (l', calls, rw (e, run_rounds) refl, b')

-- An event loop with a queue of `size` cells, which holds `xs`, comes to its end once `ev_run` returns
-- false, whatever connections come in, whatever is read, and whatever commands other threads put, while
-- the queue's callback runs or at any other time. What waits in the queue then are the commands that it
-- has accepted since the last run of its callback, or since the start where there was none, and the
-- Python thread has the interpreter lock again. (Each run of the callback has at least as much fuel
-- as the queue has cells and commands arrive meanwhile, no signal breaks the loop, and the listen
-- commands that connections come in at were there from the beginning.)
pub event_loop_run-returns :
    (size : ℕ) (q : CmdQ) (xs : List Cmd) (self : EventLoop) (rounds : List (List Handler × Bool))
    → Keeps q size xs
    → Finishing size self rounds
    → (l : Loop) × (calls : List Call) × (event_loop_run rounds (record { q = q; self = self })
        ≡ handled l calls)
      × Keeps l.q size (waiting_at_end size rounds xs)
      × (gil_after true calls ≡ some true)
unfolding event_loop_run Comes
event_loop_run-returns size q xs self rounds k f =
    let start : Loop = record { q = q; self = self } in
    let (l, calls, e, b) =
      run_rounds-Comes size self rounds start xs f
        (record { holds = k; known = λ p known. known }) in
    let (lock, _) = event_loop_run-Leaves rounds [] start in
    let whole : event_loop_run rounds start ≡ handled l (gil_save ∷ (calls ++ gil_restore ∷ [])) =
      rw (e, event_loop_run) refl in
    (l, gil_save ∷ (calls ++ gil_restore ∷ []), whole, b.holds, subst (Leaves true) whole lock)
