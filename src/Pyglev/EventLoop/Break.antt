-- ===== src/Pyglev/EventLoop/Break.antt =====
-- How the event loop of pyglev/pyglev/core/evloop.c is broken off by a signal: `_event_loop_break`
-- closes the listen commands along their list.
pub mod Closes
pub mod Faults
use striga2_pocs.Base.{
  ℕ, zero, suc, ◌+◌, ◌-◌, ◌<◌, ◌≡◌, ◌≢◌, refl, ◌∙◌, sym, ap, ap₂, subst, append-nil, ◌⊎◌, inl, inr,
  Bool, true, false, Option, none, some, List, [], ◌∷◌, ◌++◌, length, arith, leb, ◌==◌, ==-cases,
  if◌then◌else◌, Bool-cases,
}
use striga2_pocs.Calls.{
  Call, gil_restore, gil_save, py_decref, log, signal_stop, gil_after, gil_after-append, closes,
  closes-append,
}
use striga2_pocs.Pyglev.ListenCmd.{
  ListenCmd, Status, Reporter, listen_cmd_close, listen_cmd_xschedule_01,
}
use striga2_pocs.Pyglev.ListenCmd.Listening.{
  listen_cmd_close-effect, held, next-close, next-xschedule_01,
}
use striga2_pocs.Pyglev.EventLoop.{EventLoop, Object, Answers, update, handle}
use striga2_pocs.Pyglev.CmdQ.{Cmd}

-- How the break ends: done, by a read of an object that has been freed, or not within the fuel.
pub data Broken : Type 0 where
  done : EventLoop → List Call → Broken
  use_after_free : Broken
  out_of_fuel : Broken

abbrev pub calling : List Call → Broken → Broken
calling cs (done self more) = done self (cs ++ more)
calling cs use_after_free = use_after_free
calling cs out_of_fuel = out_of_fuel

-- `Py_DECREF`: the last reference frees the object.
pub drop_reference : Object → Option Object
drop_reference o = if leb o.refs 1 then none else some (record { cmd = o.cmd; refs = o.refs - 1 })

-- The loop over `listen_cmd`; its `next` is read where it stands after the reference is dropped.
unfoldable pub close_commands : ℕ → (ℕ → Bool) → ℕ → EventLoop → Broken
close_commands zero errors p self = out_of_fuel
close_commands (suc fuel) errors p self = if p == 0 then done self [] else elim (self.objects p) [
  | none ↦ use_after_free
  | some o ↦
      let (cmd, calls) = listen_cmd_close o.cmd errors in
      let objects = update self.objects p (drop_reference (record { cmd = cmd; refs = o.refs })) in
      elim (objects p) [
        | none ↦ use_after_free
        | some left ↦ calling (calls ++ py_decref p ∷ []) (
            close_commands fuel errors left.cmd.next
              (record self { listen_commands = left.cmd.next; objects = objects }))
      ]
]

-- `int_active` and `term_active` are what `ev_is_active` says of the two signal watchers.
unfoldable pub event_loop_break :
    ℕ → (int_active term_active : Bool) → (ℕ → Bool) → EventLoop → Broken
unfolding close_commands
event_loop_break fuel int_active term_active errors self =
    elim (close_commands fuel errors self.listen_commands self) [
      | done self' calls ↦ done self' (
          (if int_active then signal_stop 2 ∷ [] else [])
          ++ ((if term_active then signal_stop 15 ∷ [] else [])
              ++ gil_restore ∷ (calls ++ gil_save ∷ [])))
      | use_after_free ↦ use_after_free
      | out_of_fuel ↦ out_of_fuel
    ]

-- `_event_loop_on_break_signal`; the line break written for SIGINT is a `log`.
unfoldable pub on_break_signal :
    ℕ → ℕ → (int_active term_active : Bool) → (ℕ → Bool) → EventLoop → Broken
on_break_signal signum fuel int_active term_active errors self =
    calling (if signum == 2 then log ∷ [] else [])
      (event_loop_break fuel int_active term_active errors self)

-- The state of the loop after the turn for address `p`.
abbrev pub after : (ℕ → Bool) → ℕ → Object → EventLoop → EventLoop
after errors p o self = record self {
  listen_commands = (listen_cmd_close o.cmd errors).0.next;
  objects =
      update self.objects p
        (some (record { cmd = (listen_cmd_close o.cmd errors).0; refs = o.refs - 1 }));
}

drop_reference-last : (o : Object) → leb o.refs 1 ≡ true → drop_reference o ≡ none
unfolding drop_reference
drop_reference-last o l = rw l refl

drop_reference-kept :
    (o : Object)
    → leb o.refs 1 ≡ false
    → drop_reference o ≡ some (record { cmd = o.cmd; refs = o.refs - 1 })
unfolding drop_reference
drop_reference-kept o l = rw l refl

-- One turn.
pub close_commands-step :
    (fuel : ℕ) (errors : ℕ → Bool) (p : ℕ) (self : EventLoop) (o : Object)
    → p ≢ 0
    → self.objects p ≡ some o
    → close_commands (suc fuel) errors p self ≡ (
        if leb o.refs 1
        then use_after_free
        else calling ((listen_cmd_close o.cmd errors).1 ++ py_decref p ∷ []) (
            close_commands fuel errors
              (listen_cmd_close o.cmd errors).0.next
              (after errors p o self)))
unfolding close_commands
close_commands-step fuel errors p self o n e = elim (==-cases p 0) [
  | inl (t, z) ↦ absurd (n z)
  | inr (t, z) ↦
      let same : (p == p) ≡ true = ground arith in
      elim (Bool-cases (leb o.refs 1)) [
        | inl l ↦ rw (t, e, same, drop_reference-last _ l, l) refl
        | inr l ↦
            let (cmd, calls) = listen_cmd_close o.cmd errors in
            let kept = drop_reference-kept (record { cmd = cmd; refs = o.refs }) l in
            rw (t, e, same, kept, l)
              (ap
                (λ v. calling (calls ++ py_decref p ∷ []) (
                  close_commands fuel errors cmd.next (record self {
                    listen_commands = cmd.next;
                    objects = update self.objects p v;
                  })))
                kept)
      ]
]
