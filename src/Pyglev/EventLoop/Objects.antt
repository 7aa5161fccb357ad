-- ===== src/Pyglev/EventLoop/Objects.antt =====
-- The Python side of the event loop of pyglev/pyglev/core/evloop.c: its methods, its `on_error`
-- property, and what the garbage collector calls.
use striga2_pocs.Base.{
  ℕ, zero, suc, ◌+◌, ◌<◌, ◌≡◌, ◌≢◌, refl, ◌⊎◌, inl, inr, Bool, true, false, ◌&&◌, not, Option, none,
  some, List, [], ◌∷◌, ◌++◌, length, arith, ◌==◌, ==-cases, Option-cases, if◌then◌else◌,
}
use striga2_pocs.Calls.{
  Call, Outcome, returns, aborts, py_api, py_incref, py_decref, log, signal_stop, loop_destroy,
  count, is_incref, is_decref,
}
use striga2_pocs.Pyglev.CmdQ.{Cmd, CmdQ, cmd_q_put, cmd_q_stop, cmd_q_delete}
use striga2_pocs.Pyglev.CmdQ.Laws.{Represents, put-accepts, put-refuses}
use striga2_pocs.Pyglev.EventLoop.{EventLoop, cmd_callable, cmd_listen_cmd_01}

-- `event_loop_schedule`. `callable` is `none` where the arguments do not parse; `active` is what
-- `ev_is_active` says of the queue's watcher. True is the result `None`, false an exception. (The
-- calls of `cmd_q_put` touch the queue's mutex and watcher alone, and are left out of the trace.)
pub event_loop_schedule : CmdQ → Bool → Option ℕ → CmdQ × Bool × List Call
event_loop_schedule q active none = (q, false, py_api ∷ [])
event_loop_schedule q active (some callable) =
    let (q', ret, _) = cmd_q_put q active cmd_callable callable in
    if ret then (q', true, py_api ∷ py_incref callable ∷ []) else (q', false, py_api ∷ py_api ∷ [])

-- `event_loop_xschedule`; `is_listen_cmd` is what `PyObject_TypeCheck` says of the argument.
pub event_loop_xschedule : CmdQ → Bool → Option ℕ → Bool → CmdQ × Bool × List Call
event_loop_xschedule q active none is_listen_cmd = (q, false, py_api ∷ [])
event_loop_xschedule q active (some callable) false = (q, false, py_api ∷ py_api ∷ py_api ∷ [])
event_loop_xschedule q active (some callable) true =
    let (q', ret, _) = cmd_q_put q active cmd_listen_cmd_01 callable in
    if ret
    then (q', true, py_api ∷ py_api ∷ py_incref callable ∷ [])
    else (q', false, py_api ∷ py_api ∷ py_api ∷ [])

abbrev drop_object : Option ℕ → List Call
drop_object none = []
drop_object (some o) = py_decref o ∷ []

-- `event_loop_tp_clear`. `Py_CLEAR(listen_cmd)` sets the loop's own variable to `NULL`, and the
-- loop's step reads `next` through it.
pub event_loop_tp_clear : EventLoop → Outcome (EventLoop × List Call)
event_loop_tp_clear self =
    if self.listen_commands == 0
    then returns (record self { on_error = none }, drop_object self.on_error)
    else aborts

-- `event_loop_tp_traverse`, on fuel, where every call of `visit` returns 0: the loop's step moves
-- `self->listen_commands` along. `none` is a read through a dangling address, or no fuel.
unfoldable pub traverse_commands : ℕ → ℕ → EventLoop → Option EventLoop
traverse_commands zero p self = none
traverse_commands (suc fuel) p self = if p == 0 then some self else elim (self.objects p) [
  | none ↦ none
  | some o ↦ traverse_commands fuel o.cmd.next (record self { listen_commands = o.cmd.next })
]

unfoldable pub event_loop_tp_traverse : ℕ → EventLoop → Option EventLoop
unfolding traverse_commands
event_loop_tp_traverse fuel self = traverse_commands fuel self.listen_commands self

-- `event_loop_dtor`, of an object whose `loop` was made or not, and which has its queue if it was.
-- The queue's watcher is stopped before the queue is deleted.
pub event_loop_dtor :
    (has_loop int_active term_active : Bool) → CmdQ → EventLoop → Outcome (List Call)
unfolding event_loop_tp_clear
event_loop_dtor has_loop int_active term_active q self = elim (event_loop_tp_clear self) [
  | aborts ↦ aborts
  | returns (self', cleared) ↦
      if has_loop
      then (elim (cmd_q_delete q false) [
        | aborts ↦ aborts
        | returns deleted ↦ returns (
            (if int_active then signal_stop 2 ∷ [] else [])
            ++ ((if term_active then signal_stop 15 ∷ [] else [])
                ++ (cmd_q_stop q ++ loop_destroy ∷ (deleted ++ (cleared ++ py_api ∷ log ∷ [])))))
      ])
      else returns (cleared ++ py_api ∷ log ∷ [])
]

-- The getter of `on_error`: the object returned, `none` for `None`.
pub on_error_callback_get : EventLoop → Option ℕ × List Call
on_error_callback_get self = elim self.on_error [
  | none ↦ (none, py_api ∷ [])
  | some o ↦ (some o, py_incref o ∷ [])
]

-- The setter; `callback` is an address, and the flags say whether it is `None` and whether it is
-- callable. The result is that of the C function, 0 being true.
pub on_error_callback_set : EventLoop → ℕ → (is_none callable : Bool) → EventLoop × Bool × List Call
on_error_callback_set self callback is_none callable =
    if not is_none && not callable then (self, false, py_api ∷ []) else (
      record self { on_error = some callback },
      true,
      py_incref callback ∷ drop_object self.on_error,
    )

-- Scheduling a callable on a queue with an active watcher. With room the command goes to the end of
-- the queue and one reference to the callable is taken; without room an exception is raised, no
-- reference is taken and the queue stays as it was.
schedule-reference :
    (q : CmdQ) (xs : List Cmd) (callable : ℕ)
    → Represents q xs
    → let (q', done, calls) = event_loop_schedule q true (some callable) in
      ((length xs + 1 < q.size)
          × (done ≡ true)
          × (count (is_incref callable) calls ≡ 1)
          × Represents q' (xs ++ (record { id = 0; subject = callable }) ∷ [])
        ⊎ (length xs + 1 ≡ q.size)
          × (done ≡ false)
          × (count (is_incref callable) calls ≡ 0)
          × (q' ≡ q))
unfolding event_loop_schedule count is_incref
schedule-reference q xs callable r = elim (==-cases (length xs + 1) q.size) [
  | inl (_, full) ↦
      let p = put-refuses q xs 0 callable r (omega arith) in rw p (inr (full, refl, refl, refl))
  | inr (_, room) ↦
      let (p, _, _, r') = put-accepts q xs 0 callable r (omega (arith, r.cells.fits)) in
      rw p (inl (omega (arith, r.cells.fits), refl, ground arith, r'))
]

-- Clearing the object ends the process whenever a listen command is in its list, and otherwise
-- drops the error callback.
pub tp_clear-aborts :
    (self : EventLoop)
    → (self.listen_commands ≢ 0 → event_loop_tp_clear self ≡ aborts)
      × (self.listen_commands ≡ 0
          → event_loop_tp_clear self
            ≡ returns (record self { on_error = none }, drop_object self.on_error))
unfolding event_loop_tp_clear
tp_clear-aborts self = (λ h. ground (arith, h), λ h. ground (arith, h))

traverse_commands-end :
    (fuel p : ℕ) (self self' : EventLoop)
    → self.listen_commands ≡ p
    → traverse_commands fuel p self ≡ some self'
    → (self'.listen_commands ≡ 0)
      × (self'.objects ≡ self.objects)
      × (self'.established_sockets ≡ self.established_sockets)
unfolding traverse_commands
traverse_commands-end zero p self self' l e = (let x = e in cc)
traverse_commands-end (suc fuel) p self self' l e = elim (==-cases p 0) [
  | inl (t, z) ↦ ground arith
  | inr (t, z) ↦ elim (Option-cases (self.objects p)) [
    | inl n ↦ (let x = rw (t, n) at e in cc)
    | inr (o, s) ↦
        traverse_commands-end fuel o.cmd.next (record self { listen_commands = o.cmd.next }) self'
          refl (rw (t, s) at e)
  ]
]

-- A traversal by the garbage collector that comes to the end of the list of the listen commands
-- leaves the list empty, though every command is still there: a later break closes none of them.
tp_traverse-forgets :
    (fuel : ℕ) (self self' : EventLoop)
    → event_loop_tp_traverse fuel self ≡ some self'
    → (self'.listen_commands ≡ 0)
      × (self'.objects ≡ self.objects)
      × (self'.established_sockets ≡ self.established_sockets)
unfolding event_loop_tp_traverse
tp_traverse-forgets fuel self self' e =
    traverse_commands-end fuel self.listen_commands self self' refl e

-- The property holds one reference to the callback that is set, and none to the one before: setting
-- another callback over one takes a reference to the new and drops one to the old. What is neither
-- callable nor `None` is refused, and changes nothing.
on_error_set-references :
    (self : EventLoop) (callback old : ℕ) (is_none callable : Bool)
    → self.on_error ≡ some old
    → callback ≢ old
    → let (self', done, calls) = on_error_callback_set self callback is_none callable in
      (((is_none ≡ true) ⊎ (callable ≡ true))
          × (self'.on_error ≡ some callback)
          × (count (is_incref callback) calls ≡ 1)
          × (count (is_decref old) calls ≡ 1)
          × (count (is_decref callback) calls ≡ 0)
        ⊎ (is_none ≡ false) × (callable ≡ false) × (done ≡ false) × (self' ≡ self))
unfolding on_error_callback_set count is_incref is_decref
on_error_set-references self callback old is_none callable e n = ground arith
