-- ===== src/Pyglev/EventLoop/Break/Faults.antt =====
-- Where `_event_loop_break` of pyglev/pyglev/core/evloop.c goes wrong: on a command that only the
-- list refers to, and on one that is its own successor.
use striga2_pocs.Base.{
  ℕ, zero, suc, ◌-◌, ◌≡◌, ◌≢◌, refl, ◌∙◌, sym, ap, inl, inr, Bool, Option, some, List, [], ◌∷◌,
  ◌++◌, ◌⊎◌, ◌≤◌, length, subst, arith, leb, Bool-cases,
}
use striga2_pocs.Calls.{Call, py_decref}
use striga2_pocs.Pyglev.EventLoop.Break.Closes.{Unlisted}
use striga2_pocs.Pyglev.ListenCmd.{ListenCmd, Reporter, listen_cmd_close, listen_cmd_xschedule_01}
use striga2_pocs.Pyglev.ListenCmd.Listening.{next-close, next-xschedule_01}
use striga2_pocs.Pyglev.EventLoop.{EventLoop, Object, Answers, update, handle}
use striga2_pocs.Pyglev.CmdQ.{Cmd}
use striga2_pocs.Pyglev.EventLoop.Break.{
  Broken, done, use_after_free, out_of_fuel, calling, close_commands, event_loop_break, after,
  close_commands-step,
}

-- From address `p` on the objects are linked along the distinct addresses `qs`.
abbrev pub Linked : (ℕ → Option Object) → ℕ → List ℕ → Type 0
Linked objects p [] = p ≡ 0
Linked objects p (q ∷ qs) =
    (p ≡ q)
    × (q ≢ 0)
    × Unlisted q qs
    × ((o : Object) × (objects q ≡ some o) × Linked objects o.cmd.next qs)

-- There is only one reference to one of the objects.
abbrev pub SomeOnlyListed : (ℕ → Option Object) → List ℕ → Type 0
SomeOnlyListed objects [] = ⊥
SomeOnlyListed objects (q ∷ qs) =
    ((o : Object) × (objects q ≡ some o) × (o.refs ≡ 1)) ⊎ SomeOnlyListed objects qs

Linked-update :
    (objects : ℕ → Option Object) (p q : ℕ) (v : Option Object) (qs : List ℕ)
    → Unlisted q qs
    → Linked objects p qs
    → Linked (update objects q v) p qs
Linked-update objects p q v [] u c = c
Linked-update objects p q v (r ∷ qs) u (e, n, v', (o, at_, rest)) =
    (e, n, v', (o, ground arith, Linked-update objects o.cmd.next q v qs u.1 rest))

SomeOnlyListed-update :
    (objects : ℕ → Option Object) (q : ℕ) (v : Option Object) (qs : List ℕ)
    → Unlisted q qs
    → SomeOnlyListed objects qs
    → SomeOnlyListed (update objects q v) qs
SomeOnlyListed-update objects q v [] u c = c
SomeOnlyListed-update objects q v (r ∷ qs) u (inl (o, at_, one)) = inl (o, ground arith, one)
SomeOnlyListed-update objects q v (r ∷ qs) u (inr c) =
    inr (SomeOnlyListed-update objects q v qs u.1 c)

calling-use_after_free :
    (cs : List Call) (b : Broken) → b ≡ use_after_free → calling cs b ≡ use_after_free
calling-use_after_free cs b e = ap (calling cs) e

-- The way along the list comes to an object that is freed as its reference is dropped.
reads_freed :
    (fuel : ℕ) (errors : ℕ → Bool) (p : ℕ) (qs : List ℕ) (self : EventLoop)
    → length qs ≤ fuel
    → Linked self.objects p qs
    → SomeOnlyListed self.objects qs
    → close_commands fuel errors p self ≡ use_after_free
reads_freed fuel errors p [] self n l s = absurd s
reads_freed zero errors p (q ∷ qs) self n l s = absurd (omega (arith, n))
reads_freed (suc fuel) errors p (q ∷ qs) self n (e, z, u, (o, at_, rest)) s =
    let found : self.objects p ≡ some o = ap self.objects e ∙ at_ in
    let step = close_commands-step fuel errors p self o (λ f. z (sym e ∙ f)) found in
    elim (Bool-cases (leb o.refs 1)) [
      | inl t ↦ step ∙ rw t refl
      | inr t ↦
          let left : Option Object =
            some (record { cmd = (listen_cmd_close o.cmd errors).0; refs = o.refs - 1 }) in
          let apart : Unlisted p qs = subst (λ x. Unlisted x qs) (sym e) u in
          let later : close_commands fuel errors (listen_cmd_close o.cmd errors).0.next
                (after errors p o self)
              ≡ use_after_free =
            elim s [
              | inl (o', at', one) ↦
                  let same : o'.refs ≡ o.refs = cc in absurd (ground (arith, same, one, t))
              | inr c ↦
                  reads_freed fuel errors (listen_cmd_close o.cmd errors).0.next qs
                    (after errors p o self) (omega (arith, n))
                    (Linked-update self.objects _ p left qs apart
                      (subst (λ x. Linked self.objects x qs) (sym (next-close o.cmd errors)) rest))
                    (SomeOnlyListed-update self.objects p left qs apart c)
            ] in
          step
          ∙ rw t (
              calling-use_after_free ((listen_cmd_close o.cmd errors).1 ++ py_decref p ∷ []) _
                later)
    ]

-- Where the list holds the only reference to one of its commands, the break reads the `next` of a
-- command after it has been freed, wherever in the list that command stands and whatever the others
-- are. (The list links objects at distinct addresses, and there is fuel for each.)
pub event_loop_break-use_after_free :
    (fuel : ℕ) (int_active term_active : Bool) (errors : ℕ → Bool) (self : EventLoop) (qs : List ℕ)
    → length qs ≤ fuel
    → Linked self.objects self.listen_commands qs
    → SomeOnlyListed self.objects qs
    → event_loop_break fuel int_active term_active errors self ≡ use_after_free
unfolding event_loop_break
event_loop_break-use_after_free fuel int_active term_active errors self qs n l s =
    rw (reads_freed fuel errors self.listen_commands qs self n l s, event_loop_break) refl

not_done :
    (cs : List Call) (b : Broken) {self : EventLoop} {calls : List Call}
    → calling cs b ≡ done self calls
    → ((s : EventLoop) (more : List Call) → b ≢ done s more)
    → ⊥
not_done cs (done s more) e h = h s more refl
not_done cs use_after_free e h = cc
not_done cs out_of_fuel e h = cc

-- No way through the loop ends on an object that is its own successor.
self_linked :
    (fuel : ℕ) (errors : ℕ → Bool) (p : ℕ) (self : EventLoop) (o : Object)
    → p ≢ 0
    → self.objects p ≡ some o
    → o.cmd.next ≡ p
    → (self' : EventLoop) (calls : List Call) → close_commands fuel errors p self ≢ done self' calls
unfolding close_commands
self_linked zero errors p self o n e l self' calls d = cc
self_linked (suc fuel) errors p self o n e l self' calls d = elim (Bool-cases (leb o.refs 1)) [
  | inl t ↦
      (let x = sym (close_commands-step fuel errors p self o n e) ∙ d in let y = rw t at x in cc)
  | inr t ↦
      let x = sym (close_commands-step fuel errors p self o n e) ∙ d in
      let y = rw t at x in
      not_done _
        (close_commands fuel errors (listen_cmd_close o.cmd errors).0.next (after errors p o self))
        y
        (λ s more z.
          self_linked fuel errors p (after errors p o self)
            (record { cmd = (listen_cmd_close o.cmd errors).0; refs = o.refs - 1 }) n (ground arith)
            (next-close o.cmd errors ∙ l) s more
            (ap (λ x. close_commands fuel errors x (after errors p o self))
                (sym (next-close o.cmd errors ∙ l))
              ∙ z))
]

break-not_done :
    (fuel : ℕ) (int_active term_active : Bool) (errors : ℕ → Bool) (self : EventLoop) (b : Broken)
    {self' : EventLoop} {calls : List Call}
    → close_commands fuel errors self.listen_commands self ≡ b
    → ((s : EventLoop) (more : List Call) → b ≢ done s more)
    → event_loop_break fuel int_active term_active errors self ≢ done self' calls
unfolding event_loop_break
break-not_done fuel int_active term_active errors self (done s more) e h d = h s more refl
break-not_done fuel int_active term_active errors self use_after_free e h d =
    let x = rw (e, event_loop_break) at d in cc
break-not_done fuel int_active term_active errors self out_of_fuel e h d =
    let x = rw (e, event_loop_break) at d in cc

handle-listen :
    (a : Answers) (p : ℕ) (self : EventLoop) (o : Object)
    → self.objects p ≡ some o
    → let self' = (handle a (record { id = 50; subject = p }) self).0 in
      (o' : Object) × (self'.objects p ≡ some o')
      × (self'.listen_commands ≡ p)
      × (o'.cmd.next ≡ self.listen_commands)
unfolding handle
handle-listen a p self o e = (
  record { cmd = (listen_cmd_xschedule_01 linked r a.resolved).0; refs = o.refs },
  rw e (ground arith),
  rw e refl,
  next-xschedule_01 linked r a.resolved,
)
  where
    linked : ListenCmd
    linked = record (o.cmd) { next = self.listen_commands }

    r : Reporter
    r = record { on_error = self.on_error; result = a.reported }

-- Carrying out the command to listen for the same object twice in a row links it to itself, and
-- from then on no break of the event loop ends well, with whatever fuel: it goes round, or reads
-- the freed object.
pub listen_twice-never_breaks :
    (a b : Answers) (p fuel : ℕ) (int_active term_active : Bool) (errors : ℕ → Bool)
    (self self' : EventLoop) (o : Object) (calls : List Call)
    → p ≢ 0
    → self.objects p ≡ some o
    → let c : Cmd = record { id = 50; subject = p } in
      event_loop_break fuel int_active term_active errors (handle b c (handle a c self).0).0
      ≢ done self' calls
listen_twice-never_breaks a b p fuel int_active term_active errors self self' o calls n e =
    let (o₁, at₁, listed₁, _) = handle-listen a p self o e in
    let (o₂, at₂, listed₂, next₂) =
      handle-listen b p (handle a (record { id = 50; subject = p }) self).0 o₁ at₁ in
    let twice =
      (handle b (record { id = 50; subject = p })
        (handle a (record { id = 50; subject = p }) self).0).0 in
    break-not_done fuel int_active term_active errors twice _ refl (λ s more z.
      self_linked fuel errors p twice o₂ n at₂ (next₂ ∙ listed₁) s more
        (ap (λ x. close_commands fuel errors x twice) (sym listed₂) ∙ z))
