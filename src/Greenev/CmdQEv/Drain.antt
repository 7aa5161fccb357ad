-- ===== src/Greenev/CmdQEv/Drain.antt =====
-- The queue of greenev/cmdq_ev.c as a whole, and the loop that hands its commands to the owner.
use striga2_pocs.Base.{
  ℕ, zero, suc, ◌+◌, ◌-◌, ◌^◌, ◌<◌, ◌≤◌, ◌≡◌, ◌∙◌, inl, inr, Bool, false, some, List, [], ◌∷◌, ◌++◌,
  length, arith, ltb, Bool-cases, List-cases, subst, ap, if◌then◌else◌,
}
use striga2_pocs.Calls.{returns, mutex_init, async_init}
use striga2_pocs.Fifo.{
  Queue, Request, serve_all, respond_all, respond_all-eq-serve_all, admit, admit-cons, admit-nil,
  total_lem, drained, now_or_nil, later_or_nil, total, each, length-admit-le, drained-nil,
  drained-cons,
}
use striga2_pocs.Greenev.Cmd.{Cmd}
use striga2_pocs.Greenev.CmdQEv.{
  WatcherCmdQ, watcher_cmd_q_new, watcher_cmd_q_put, take_cmd, put_all, on_watcher_cmd_q_async,
}
use striga2_pocs.Greenev.CmdQEv.Laws.{
  Represents, new-Represents, put_accepts, put_refuses, take_nothing, take_oldest,
}

abbrev pub put_cmd : WatcherCmdQ → Cmd → WatcherCmdQ × Bool
put_cmd this c = let r = watcher_cmd_q_put this c.id c.arg in (r.0, r.1)

pub put_cmd-refuses :
    (size : ℕ) (this : WatcherCmdQ) (xs : List Cmd) (c : Cmd)
    → Represents this xs × (this.q_size ≡ size)
    → size - 1 ≤ length xs
    → put_cmd this c ≡ (this, false)
put_cmd-refuses size this xs c (r, e) h = let p = put_refuses this xs c r (omega arith) in rw p

abbrev pub watcher_cmd_q_queue : ℕ → Queue WatcherCmdQ Cmd
watcher_cmd_q_queue size = record {
  capacity = size - 1;
  holds = λ this xs. Represents this xs × (this.q_size ≡ size);
  put = put_cmd;
  get = take_cmd;
  put_accepts =
      λ this xs c (r, e) h. let p = put_accepts this xs c r (omega arith) in (p.0, (p.3, p.2 ∙ e));
  put_refuses = put_cmd-refuses size;
  get_nothing = λ this (r, e). take_nothing this r;
  get_oldest = λ this x xs (r, e). let p = take_oldest this x xs r in (p.0, (p.3, p.1 ∙ e));
}

-- From a new queue of `size` cells on, every sequence of puts and of takes by the consumer is
-- answered as the list of at most `size - 1` commands answers it: commands come out in the order
-- in which they went in, and a put is refused exactly when `size - 1` commands wait. `size` is
-- positive and below 2 ^ 32.
pub watcher_cmd_q-eq-fifo :
    (size callbackarg : ℕ) (cells : List Cmd) (rs : List (Request Cmd))
    → 0 < size
    → size < 2 ^ 32
    → length cells ≡ size
    → (this : WatcherCmdQ) × (watcher_cmd_q_new size callbackarg (some cells)
        ≡ returns (some this, mutex_init ∷ async_init ∷ []))
      × (respond_all (watcher_cmd_q_queue size) this rs ≡ serve_all (size - 1) [] rs)
watcher_cmd_q-eq-fifo size callbackarg cells rs h s e =
    let (this, made, sized, r) = new-Represents size callbackarg cells h s e in
    (this, made, respond_all-eq-serve_all (watcher_cmd_q_queue size) this [] rs (r, sized))

-- What a queue of `size` cells with the owner's argument holds.
pub record Keeps (this : WatcherCmdQ) (size callbackarg : ℕ) (xs : List Cmd) : Type 0 where
  pub represents : Represents this xs
  pub sized : this.q_size ≡ size
  pub owned : this.callbackarg ≡ callbackarg

callbackarg-put :
    (this : WatcherCmdQ) (c : Cmd)
    → (watcher_cmd_q_put this c.id c.arg).0.callbackarg ≡ this.callbackarg
unfolding watcher_cmd_q_put
callbackarg-put this c = ground arith

pub put-Keeps :
    (this : WatcherCmdQ) (size callbackarg : ℕ) (xs : List Cmd) (c : Cmd)
    → Keeps this size callbackarg xs
    → Keeps
        (watcher_cmd_q_put this c.id c.arg).0
        size
        callbackarg
        (if ltb (length xs) (size - 1) then xs ++ c ∷ [] else xs)
put-Keeps this size callbackarg xs c k = elim (Bool-cases (ltb (length xs) (size - 1))) [
  | inl e ↦ rw e (
      let (_, _, sized, r) = put_accepts this xs c k.represents (ground (arith, k.sized)) in
      record { represents = r; sized = sized ∙ k.sized; owned = callbackarg-put this c ∙ k.owned })
  | inr e ↦ let p = put_refuses this xs c k.represents (ground (arith, k.sized)) in rw (e, p) k
]

pub put_all-Keeps :
    (this : WatcherCmdQ) (size callbackarg : ℕ) (xs cs : List Cmd)
    → Keeps this size callbackarg xs
    → Keeps (put_all this cs) size callbackarg (admit (size - 1) xs cs)
unfolding put_all
put_all-Keeps this size callbackarg xs [] k = rw (admit-nil (size - 1) xs) k
put_all-Keeps this size callbackarg xs (c ∷ cs) k = rw (admit-cons (size - 1) xs c cs) (
    put_all-Keeps (watcher_cmd_q_put this c.id c.arg).0 size callbackarg _ cs
      (put-Keeps this size callbackarg xs c k))

-- Once the callback runs, with fuel above the number of the commands held and of those that arrive
-- meanwhile, it hands the owner's callback every command held and every one accepted meanwhile,
-- each once, in order and with the owner's argument, and leaves the queue empty.
pub on_watcher_cmd_q_async-drains {ℓ} :
    {S : Type ℓ} (cmdcallback : ℕ → Cmd → S → S) (fuel : ℕ) (arrivals : List (List Cmd))
    (this : WatcherCmdQ) (s : S) (size callbackarg : ℕ) (xs : List Cmd)
    → Keeps this size callbackarg xs
    → length xs + total arrivals < fuel
    → (this' : WatcherCmdQ) × (on_watcher_cmd_q_async cmdcallback fuel arrivals this s
        ≡ some (this', each (cmdcallback callbackarg) (drained (size - 1) arrivals xs) s))
      × Keeps this' size callbackarg []
unfolding on_watcher_cmd_q_async
on_watcher_cmd_q_async-drains f zero arrivals this s size callbackarg xs k h = absurd (omega arith)
on_watcher_cmd_q_async-drains f (suc fuel) arrivals this s size callbackarg xs k h =
    elim (List-cases (admit (size - 1) xs (now_or_nil arrivals))) [
      | inl e ↦
          let k' : Keeps this₁ size callbackarg [] = subst (Keeps this₁ size callbackarg) e keeps in
          (
            this₁,
            rw (
              take_nothing this₁ k'.represents,
              on_watcher_cmd_q_async,
              take_nothing this₁ k'.represents,
              drained-nil (size - 1) arrivals xs e,
            ),
            k',
          )
      | inr (y, ys, e) ↦
          let k' : Keeps this₁ size callbackarg (y ∷ ys) =
            subst (Keeps this₁ size callbackarg) e keeps in
          let (taken, sized, owned, r) = take_oldest this₁ y ys k'.represents in
          let (this', run, done) =
            on_watcher_cmd_q_async-drains f fuel (later_or_nil arrivals) (take_cmd this₁).0
              (f callbackarg y s) size callbackarg ys
              (record { represents = r; sized = sized ∙ k'.sized; owned = owned ∙ k'.owned })
              (fuel_left y ys e) in
          (
            this',
            rw
                (
                  taken,
                  on_watcher_cmd_q_async,
                  owned ∙ k'.owned,
                  drained-cons (size - 1) arrivals xs y ys e,
                )
                run,
            done,
          )
    ]
  where
    this₁ : WatcherCmdQ
    this₁ = put_all this (now_or_nil arrivals)

    keeps : Keeps this₁ size callbackarg (admit (size - 1) xs (now_or_nil arrivals))
    keeps = put_all-Keeps this size callbackarg xs (now_or_nil arrivals) k

    fuel_left :
        (y : Cmd) (ys : List Cmd)
        → admit (size - 1) xs (now_or_nil arrivals) ≡ y ∷ ys
        → length ys + total (later_or_nil arrivals) < fuel
    fuel_left y ys e = omega (
      arith,
      h,
      total_lem arrivals,
      ap length e,
      length-admit-le (size - 1) xs (now_or_nil arrivals),
    )
