-- ===== src/Pyglev/EventLoop/Drain.antt =====
-- The loop `_event_loop_on_cmdq_ready` of pyglev/pyglev/core/evloop.c: which commands it carries
-- out, in which order, and that it ends.
use striga2_pocs.Base.{
  ℕ, zero, suc, ◌+◌, ◌-◌, ◌<◌, ◌≡◌, refl, ◌∙◌, ap, subst, inl, inr, true, false, some, List, [],
  ◌∷◌, ◌++◌, length, append-nil, arith, ltb, Bool-cases, List-cases, Option-cases, if◌then◌else◌,
  ◌==◌,
}
use striga2_pocs.Calls.{Call, gil_after, gil_after-append}
use striga2_pocs.Fifo.{
  admit, admit-cons, admit-nil, drained_once, now_or_nil, later_or_nil, total, total_lem,
  length-admit-le, drained_once-nil, drained_once-one, drained_once-more,
}
use striga2_pocs.Pyglev.CmdQ.{Cmd, CmdQ, cmd_q_put, cmd_q_get}
use striga2_pocs.Pyglev.CmdQ.Laws.{Represents, put-accepts, put-refuses, get-empty, get-oldest}
use striga2_pocs.Pyglev.ListenCmd.Listening.{xschedule_01-descriptors}
use striga2_pocs.Pyglev.EventLoop.{EventLoop, Answers, handle, put_all, on_cmdq_ready}

-- Commands carried out one by one, each with the answers of its turn.
unfoldable pub carried_out : (ℕ → Answers) → ℕ → List Cmd → EventLoop → EventLoop × List Call
carried_out answers turn [] self = (self, [])
carried_out answers turn (c ∷ cs) self =
    let (self', calls) = handle (answers turn) c self in
    let (self'', more) = carried_out answers (turn + 1) cs self' in (self'', calls ++ more)

-- A queue of `size` cells that holds the commands `xs`.
abbrev pub Keeps : CmdQ → ℕ → List Cmd → Type 0
Keeps q size xs = (q.size ≡ size) × Represents q xs

put-Keeps :
    (q : CmdQ) (size : ℕ) (xs : List Cmd) (c : Cmd)
    → Keeps q size xs
    → Keeps
        (cmd_q_put q true c.id c.subject).0
        size
        (if ltb (length xs) (size - 1) then xs ++ c ∷ [] else xs)
put-Keeps q size xs c (e, r) = elim (Bool-cases (ltb (length xs) (size - 1))) [
  | inl t ↦
      rw t (
        let (_, _, sized, r') = put-accepts q xs c.id c.subject r (ground arith) in (sized ∙ e, r'))
  | inr t ↦ let p = put-refuses q xs c.id c.subject r (ground arith) in rw (t, p) (e, r)
]

pub put_all-Keeps :
    (q : CmdQ) (size : ℕ) (xs cs : List Cmd)
    → Keeps q size xs
    → Keeps (put_all q cs) size (admit (size - 1) xs cs)
unfolding put_all
put_all-Keeps q size xs [] k = rw (admit-nil (size - 1) xs) k
put_all-Keeps q size xs (c ∷ cs) k =
    rw (admit-cons (size - 1) xs c cs)
      (put_all-Keeps (cmd_q_put q true c.id c.subject).0 size _ cs (put-Keeps q size xs c k))

-- One turn, by what the queue holds when it begins.
turn-nothing :
    (fuel : ℕ) (answers : ℕ → Answers) (turn : ℕ) (arrivals : List (List Cmd)) (q : CmdQ)
    (self : EventLoop)
    → Represents (put_all q (now_or_nil arrivals)) []
    → on_cmdq_ready (suc fuel) answers turn arrivals q self
      ≡ some (put_all q (now_or_nil arrivals), self, [])
unfolding on_cmdq_ready
turn-nothing fuel answers turn arrivals q self r =
    let e = get-empty (put_all q (now_or_nil arrivals)) r in rw (e, on_cmdq_ready)

turn-last :
    (fuel : ℕ) (answers : ℕ → Answers) (turn : ℕ) (arrivals : List (List Cmd)) (q : CmdQ)
    (self : EventLoop) (c : Cmd)
    → Represents (put_all q (now_or_nil arrivals)) (c ∷ [])
    → on_cmdq_ready (suc fuel) answers turn arrivals q self
      ≡ some (
        (cmd_q_get (put_all q (now_or_nil arrivals))).0,
        (handle (answers turn) c self).0,
        (handle (answers turn) c self).1,
      )
unfolding on_cmdq_ready
turn-last fuel answers turn arrivals q self c r =
    let e = get-oldest (put_all q (now_or_nil arrivals)) c [] r in rw (e.0, e.1, on_cmdq_ready, e.0)

turn-more :
    (fuel : ℕ) (answers : ℕ → Answers) (turn : ℕ) (arrivals : List (List Cmd)) (q : CmdQ)
    (self : EventLoop) (c d : Cmd) (cs : List Cmd) {q' : CmdQ} {self' : EventLoop}
    {more : List Call}
    → Represents (put_all q (now_or_nil arrivals)) (c ∷ d ∷ cs)
    → on_cmdq_ready fuel answers
        (turn + 1)
        (later_or_nil arrivals)
        (cmd_q_get (put_all q (now_or_nil arrivals))).0
        (handle (answers turn) c self).0
      ≡ some (q', self', more)
    → on_cmdq_ready (suc fuel) answers turn arrivals q self
      ≡ some (q', self', (handle (answers turn) c self).1 ++ more)
unfolding on_cmdq_ready
turn-more fuel answers turn arrivals q self c d cs r rest =
    let e = get-oldest (put_all q (now_or_nil arrivals)) c (d ∷ cs) r in
    rw (e.0, e.1, on_cmdq_ready, e.0, rest) (ground arith)

-- With fuel above the number of the commands held and of those that arrive meanwhile the loop ends,
-- with the queue empty, and has carried out, each once and in order, the commands held and those
-- accepted meanwhile, up to the first command that leaves nothing behind it. The queue has `size`
-- cells and an active watcher.
pub on_cmdq_ready-carries_out :
    (fuel : ℕ) (answers : ℕ → Answers) (turn : ℕ) (arrivals : List (List Cmd)) (q : CmdQ)
    (self : EventLoop) (size : ℕ) (xs : List Cmd)
    → Keeps q size xs
    → length xs + total arrivals < fuel
    → let (self', calls) = carried_out answers turn (drained_once (size - 1) arrivals xs) self in
      (q' : CmdQ) × (on_cmdq_ready fuel answers turn arrivals q self ≡ some (q', self', calls))
      × Keeps q' size []
unfolding carried_out
on_cmdq_ready-carries_out zero answers turn arrivals q self size xs k h = absurd (omega arith)
on_cmdq_ready-carries_out (suc fuel) answers turn arrivals q self size xs k h =
    elim (List-cases (admit (size - 1) xs (now_or_nil arrivals))) [
      | inl e ↦
          let (s, r) = subst (Keeps q₁ size) e keeps in
          (
            q₁,
            rw (drained_once-nil (size - 1) arrivals xs e)
                (turn-nothing fuel answers turn arrivals q self r),
            (s, r),
          )
      | inr (c, cs, e) ↦ elim (List-cases cs) [
        | inl e' ↦
            let e'' = e ∙ ap (◌∷◌ c) e' in
            let (s, r) = subst (Keeps q₁ size) e'' keeps in
            let (_, _, _, s', r') = get-oldest q₁ c [] r in
            (
              (cmd_q_get q₁).0,
              rw (drained_once-one (size - 1) arrivals xs c e'', append-nil)
                  (turn-last fuel answers turn arrivals q self c r),
              (s' ∙ s, r'),
            )
        | inr (d, ds, e') ↦
            let e'' = e ∙ ap (◌∷◌ c) e' in
            let (s, r) = subst (Keeps q₁ size) e'' keeps in
            let (_, _, _, s', r') = get-oldest q₁ c (d ∷ ds) r in
            let (q', run, done) =
              on_cmdq_ready-carries_out fuel answers (turn + 1) (later_or_nil arrivals)
                (cmd_q_get q₁).0 (handle (answers turn) c self).0 size (d ∷ ds) (s' ∙ s, r')
                (fuel_left c (d ∷ ds) e'') in
            (
              q',
              rw (drained_once-more (size - 1) arrivals xs c d ds e'')
                  (turn-more fuel answers turn arrivals q self c d ds r run),
              done,
            )
      ]
    ]
  where
    q₁ : CmdQ
    q₁ = put_all q (now_or_nil arrivals)

    keeps : Keeps q₁ size (admit (size - 1) xs (now_or_nil arrivals))
    keeps = put_all-Keeps q size xs (now_or_nil arrivals) k

    fuel_left :
        (c : Cmd) (cs : List Cmd)
        → admit (size - 1) xs (now_or_nil arrivals) ≡ c ∷ cs
        → length cs + total (later_or_nil arrivals) < fuel
    fuel_left c cs e = omega (
      arith,
      h,
      total_lem arrivals,
      ap length e,
      length-admit-le (size - 1) xs (now_or_nil arrivals),
    )

pub handle-gil :
    (a : Answers) (c : Cmd) (self : EventLoop) → gil_after false (handle a c self).1 ≡ some false
unfolding handle gil_after
handle-gil a c self = elim (Bool-cases (c.id == 0)) [
  | inl e ↦ rw e (ground arith)
  | inr e ↦ elim (Bool-cases (c.id == 50)) [
    | inr e' ↦ rw (e, e')
    | inl e' ↦ elim (Option-cases (self.objects c.subject)) [
      | inl s ↦ rw (e, e', s)
      | inr (o, s) ↦
          rw (e, e', s)
            (xschedule_01-descriptors (record (o.cmd) { next = self.listen_commands })
              (record { on_error = self.on_error; result = a.reported }) a.resolved).0
    ]
  ]
]

-- Carrying out commands, of whatever kind and with whatever answers, leaves the interpreter lock
-- free.
carried_out-gil :
    (answers : ℕ → Answers) (turn : ℕ) (cs : List Cmd) (self : EventLoop)
    → gil_after false (carried_out answers turn cs self).1 ≡ some false
unfolding carried_out gil_after
carried_out-gil answers turn [] self = refl
carried_out-gil answers turn (c ∷ cs) self =
    gil_after-append false false (handle (answers turn) c self).1
      (carried_out answers (turn + 1) cs (handle (answers turn) c self).0).1
      (handle-gil (answers turn) c self)
    ∙ carried_out-gil answers (turn + 1) cs (handle (answers turn) c self).0
