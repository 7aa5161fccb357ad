-- ===== src/Pyglev/EventLoop/Break/Closes.antt =====
-- What `_event_loop_break` of pyglev/pyglev/core/evloop.c does on a list of listen commands.
use striga2_pocs.Base.{
  ℕ, zero, suc, ◌-◌, ◌<◌, ◌≡◌, ◌≢◌, refl, ◌∙◌, sym, ap, ap₂, subst, append-nil, Bool, true, false,
  Option, none, some, List, [], ◌∷◌, ◌++◌, length, arith, if◌then◌else◌,
}
use striga2_pocs.Calls.{
  gil_restore, gil_save, py_decref, signal_stop, gil_after, gil_after-append, closes, closes-append,
}
use striga2_pocs.Pyglev.ListenCmd.{Status, listen_cmd_close}
use striga2_pocs.Pyglev.ListenCmd.Listening.{listen_cmd_close-effect, held}
use striga2_pocs.Pyglev.EventLoop.{EventLoop, Object, update}
use striga2_pocs.Pyglev.EventLoop.Break.{
  Broken, done, use_after_free, out_of_fuel, calling, close_commands, event_loop_break, after,
  close_commands-step,
}

abbrev pub Unlisted : ℕ → List ℕ → Type 0
Unlisted p [] = Unit
Unlisted p (q ∷ qs) = (p ≢ q) × Unlisted p qs

-- From address `p` on the objects are linked along the distinct addresses `qs`, each of an open
-- command that somebody else refers to as well.
abbrev pub Chain : (ℕ → Option Object) → ℕ → List ℕ → Type 0
Chain objects p [] = p ≡ 0
Chain objects p (q ∷ qs) =
    (p ≡ q)
    × (q ≢ 0)
    × Unlisted q qs
    × ((o : Object) × (objects q ≡ some o)
        × (1 < o.refs)
        × (o.cmd.status ≢ Status.closed)
        × Chain objects o.cmd.next qs)

-- The descriptors that the commands along a list hold.
pub descriptors : (ℕ → Option Object) → List ℕ → List ℕ
descriptors objects [] = []
descriptors objects (q ∷ qs) =
    (elim (objects q) [ none ↦ [] | some o ↦ held o.cmd ]) ++ descriptors objects qs

-- Every command along a list is closed.
abbrev pub AllClosed : (ℕ → Option Object) → List ℕ → Type 0
AllClosed objects [] = Unit
AllClosed objects (q ∷ qs) =
    ((o : Object) × (objects q ≡ some o) × (o.cmd.status ≡ Status.closed)) × AllClosed objects qs

Chain-update :
    (objects : ℕ → Option Object) (p q : ℕ) (v : Option Object) (qs : List ℕ)
    → Unlisted q qs
    → Chain objects p qs
    → Chain (update objects q v) p qs
Chain-update objects p q v [] u c = c
Chain-update objects p q v (r ∷ qs) u c =
    let (o, at, refs, open_, rest) = c.3 in
    (c.0, c.1, c.2, (o, ground arith, refs, open_, Chain-update objects o.cmd.next q v qs u.1 rest))

descriptors-update :
    (objects : ℕ → Option Object) (q : ℕ) (v : Option Object) (qs : List ℕ)
    → Unlisted q qs
    → descriptors (update objects q v) qs ≡ descriptors objects qs
unfolding descriptors
descriptors-update objects q v [] u = refl
descriptors-update objects q v (r ∷ qs) u = ground (arith, descriptors-update objects q v qs u.1)

AllClosed-update :
    (objects : ℕ → Option Object) (q : ℕ) (v : Option Object) (qs : List ℕ)
    → Unlisted q qs
    → AllClosed objects qs
    → AllClosed (update objects q v) qs
AllClosed-update objects q v [] u c = tt
AllClosed-update objects q v (r ∷ qs) u c =
    let (o, at, s) = c.0 in ((o, ground arith, s), AllClosed-update objects q v qs u.1 c.1)

-- What the loop comes to on a chain. It leaves an address that is not on the chain alone.
abbrev Closes : (ℕ → Option Object) → List ℕ → Broken → Type 0
Closes objects qs (done self calls) =
    (self.listen_commands ≡ 0)
    × AllClosed self.objects qs
    × (closes calls ≡ descriptors objects qs)
    × (gil_after true calls ≡ some true)
    × ((p : ℕ) → Unlisted p qs → self.objects p ≡ objects p)
Closes objects qs use_after_free = ⊥
Closes objects qs out_of_fuel = ⊥

Closes-calling :
    (self : EventLoop) (errors : ℕ → Bool) (q : ℕ) (qs : List ℕ) (o : Object) (b : Broken)
    → self.objects q ≡ some o
    → o.cmd.status ≢ Status.closed
    → Unlisted q qs
    → Closes (after errors q o self).objects qs b
    → Closes self.objects
        (q ∷ qs)
        (calling ((listen_cmd_close o.cmd errors).1 ++ py_decref q ∷ []) b)
unfolding descriptors closes gil_after
Closes-calling self errors q qs o (done self' more) at open_ u (null, all, closing, gil, rest) =
    let (s, n, c, g) = listen_cmd_close-effect o.cmd errors open_ in
    (
      null,
      (
        (
          record { cmd = (listen_cmd_close o.cmd errors).0; refs = o.refs - 1 },
          rest q u ∙ ground arith,
          s,
        ),
        all,
      ),
      rw (at, closes-append)
          (ap₂ ◌++◌
            (closes-append (listen_cmd_close o.cmd errors).1 (py_decref q ∷ []) ∙ append-nil _ ∙ c)
            (closing ∙ descriptors-update self.objects q _ qs u)),
      gil_after-append true true ((listen_cmd_close o.cmd errors).1 ++ py_decref q ∷ []) more
            (gil_after-append true true (listen_cmd_close o.cmd errors).1 (py_decref q ∷ []) g)
          ∙ gil,
      λ p v. rest p v.1 ∙ ground arith,
    )
Closes-calling self errors q qs o use_after_free at open_ u c = c
Closes-calling self errors q qs o out_of_fuel at open_ u c = c

close_commands-null :
    (fuel : ℕ) (errors : ℕ → Bool) (p : ℕ) (self : EventLoop)
    → p ≡ 0
    → close_commands (suc fuel) errors p self ≡ done self []
unfolding close_commands
close_commands-null fuel errors p self e = ground arith

close_commands-Closes :
    (fuel : ℕ) (errors : ℕ → Bool) (p : ℕ) (self : EventLoop) (qs : List ℕ)
    → self.listen_commands ≡ p
    → Chain self.objects p qs
    → length qs < fuel
    → Closes self.objects qs (close_commands fuel errors p self)
unfolding descriptors closes gil_after
close_commands-Closes zero errors p self qs e c h = absurd (omega arith)
close_commands-Closes (suc fuel) errors p self [] e c h =
    subst (Closes self.objects []) (sym (close_commands-null fuel errors p self c))
      (e ∙ c, tt, refl, refl, λ q v. refl)
close_commands-Closes (suc fuel) errors p self (q ∷ qs) e c h =
    let (here, nonzero, u, (o, at, refs, open_, rest)) = c in
    let (s, n, _, _) = listen_cmd_close-effect o.cmd errors open_ in
    let ih =
      close_commands-Closes fuel errors (listen_cmd_close o.cmd errors).0.next
        (after errors q o self) qs refl
        (Chain-update self.objects _ q _ qs u (subst (λ x. Chain self.objects x qs) (sym n) rest))
        (omega arith) in
    subst (Closes self.objects (q ∷ qs))
      (sym (
        ap (λ x. close_commands (suc fuel) errors x self) here
        ∙ close_commands-step fuel errors q self o nonzero at
        ∙ ground (arith, refs)))
      (Closes-calling self errors q qs o _ at open_ u ih)

-- Where a break ends that goes well: no command is listed any more, each is closed, the descriptors
-- closed are those that the commands held, in the order of the list, and the interpreter lock is
-- free again.
abbrev pub BreaksOff : (ℕ → Option Object) → List ℕ → Broken → Type 0
BreaksOff objects qs (done self calls) =
    (self.listen_commands ≡ 0)
    × AllClosed self.objects qs
    × (closes calls ≡ descriptors objects qs)
    × (gil_after false calls ≡ some false)
BreaksOff objects qs use_after_free = ⊥
BreaksOff objects qs out_of_fuel = ⊥

break_finish :
    (objects : ℕ → Option Object) (qs : List ℕ) (int_active term_active : Bool) (b : Broken)
    → Closes objects qs b
    → BreaksOff objects qs (elim b [
      | done self' calls ↦ done self' (
          (if int_active then signal_stop 2 ∷ [] else [])
          ++ ((if term_active then signal_stop 15 ∷ [] else [])
              ++ gil_restore ∷ (calls ++ gil_save ∷ [])))
      | use_after_free ↦ use_after_free
      | out_of_fuel ↦ out_of_fuel
    ])
unfolding closes gil_after
break_finish objects qs int_active term_active (done self calls) (null, all, closing, gil, rest) =
    let c : closes (calls ++ gil_save ∷ []) ≡ descriptors objects qs =
      closes-append calls (gil_save ∷ []) ∙ append-nil (closes calls) ∙ closing in
    let g : gil_after true (calls ++ gil_save ∷ []) ≡ some false =
      gil_after-append true true calls (gil_save ∷ []) gil in
    (null, all, ground (arith, c), ground (arith, g))
break_finish objects qs int_active term_active use_after_free c = c
break_finish objects qs int_active term_active out_of_fuel c = c

-- A break signal closes every listen command and ends: on a list of distinct open commands, each
-- with a reference besides the list's own, and with fuel above the length of the list.
pub event_loop_break-closes :
    (fuel : ℕ) (int_active term_active : Bool) (errors : ℕ → Bool) (self : EventLoop) (qs : List ℕ)
    → Chain self.objects self.listen_commands qs
    → length qs < fuel
    → BreaksOff self.objects qs (event_loop_break fuel int_active term_active errors self)
unfolding event_loop_break
event_loop_break-closes fuel int_active term_active errors self qs c h =
    break_finish self.objects qs int_active term_active
      (close_commands fuel errors self.listen_commands self)
      (close_commands-Closes fuel errors self.listen_commands self qs refl c h)
