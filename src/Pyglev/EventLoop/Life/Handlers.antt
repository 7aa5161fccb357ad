-- ===== src/Pyglev/EventLoop/Life/Handlers.antt =====
-- What one handler of the event loop of pyglev/pyglev/core/evloop.c does with the interpreter lock.
use striga2_pocs.Base.{
  ℕ, zero, suc, ◌+◌, ◌≡◌, refl, ◌∙◌, inl, inr, Bool, true, false, Option, none, some, List, [], ◌∷◌,
  ◌++◌, leb, ◌==◌, if◌then◌else◌, arith, Bool-cases, Option-cases, ==-cases,
}
use striga2_pocs.Calls.{
  Call, log, gil_restore, gil_save, py_decref, signal_stop, gil_after, gil_after-append,
}
use striga2_pocs.Pyglev.CmdQ.{CmdQ, Cmd, cmd_q_get}
use striga2_pocs.Pyglev.EstSocket.Laws.{est_socket-gil}
use striga2_pocs.Pyglev.ListenCmd.{listen_cmd_close}
use striga2_pocs.Pyglev.ListenCmd.Accepting.{listen_socket-gil}
use striga2_pocs.Pyglev.ListenCmd.Listening.{close-gil}
use striga2_pocs.Pyglev.EventLoop.{
  EventLoop, Answers, handle, put_all, on_cmdq_ready, is_negative, is_zero,
}
use striga2_pocs.Fifo.{now_or_nil, later_or_nil}
use striga2_pocs.Pyglev.EventLoop.Drain.{handle-gil}
use striga2_pocs.Pyglev.EventLoop.Break.{
  Broken, done, use_after_free, out_of_fuel, calling, close_commands, event_loop_break,
  on_break_signal, after, close_commands-step,
}
use striga2_pocs.Pyglev.EventLoop.Life.{
  Loop, Handler, queue_ready, connects, ready, break_signal, puts, Handled, handled, freed,
  unfinished, on_handler,
}

-- The interpreter lock is after the calls as it was before them, and was held at each use of the
-- interpreter; whatever the outcome.
abbrev pub Leaves : Bool → Handled → Type 0
Leaves b (handled l calls) = gil_after b calls ≡ some b
Leaves b freed = Unit
Leaves b unfinished = Unit

abbrev LeavesBroken : Bool → Broken → Type 0
LeavesBroken b (done self calls) = gil_after b calls ≡ some b
LeavesBroken b use_after_free = Unit
LeavesBroken b out_of_fuel = Unit

calling-Leaves :
    (b : Bool) (calls : List Call) (broken : Broken)
    → gil_after b calls ≡ some b
    → LeavesBroken b broken
    → LeavesBroken b (calling calls broken)
calling-Leaves b calls (done self more) h k = gil_after-append b b calls more h ∙ k
calling-Leaves b calls use_after_free h k = tt
calling-Leaves b calls out_of_fuel h k = tt

break_or-Leaves :
    (freed_ : Bool) (broken : Broken)
    → LeavesBroken true broken
    → LeavesBroken true (if freed_ then use_after_free else broken)
break_or-Leaves true broken h = tt
break_or-Leaves false broken h = h

close_commands-Leaves :
    (fuel : ℕ) (errors : ℕ → Bool) (p : ℕ) (self : EventLoop)
    → LeavesBroken true (close_commands fuel errors p self)
unfolding close_commands gil_after
close_commands-Leaves zero errors p self = tt
close_commands-Leaves (suc fuel) errors p self = elim (==-cases p 0) [
  | inl (e, _) ↦ rw e refl
  | inr (e, n) ↦ elim (Option-cases (self.objects p)) [
    | inl gone ↦ rw (e, gone) tt
    | inr (o, s) ↦ rw (close_commands-step fuel errors p self o n s) (
        break_or-Leaves (leb o.refs 1) _ (
          calling-Leaves true ((listen_cmd_close o.cmd errors).1 ++ py_decref p ∷ []) _
            (gil_after-append true true (listen_cmd_close o.cmd errors).1 (py_decref p ∷ [])
              (close-gil o.cmd errors))
            (close_commands-Leaves fuel errors (listen_cmd_close o.cmd errors).0.next
              (after errors p o self))))
  ]
]

break_finishes :
    (signum : ℕ) (int_active term_active : Bool) (b : Broken)
    → LeavesBroken true b
    → LeavesBroken false (
        calling (if signum == 2 then log ∷ [] else []) (elim b [
          | done self' calls ↦ done self' (
              (if int_active then signal_stop 2 ∷ [] else [])
              ++ ((if term_active then signal_stop 15 ∷ [] else [])
                  ++ gil_restore ∷ (calls ++ gil_save ∷ [])))
          | use_after_free ↦ use_after_free
          | out_of_fuel ↦ out_of_fuel
        ]))
unfolding gil_after
break_finishes signum int_active term_active (done self calls) h =
    let g : gil_after true (calls ++ gil_save ∷ []) ≡ some false =
      gil_after-append true true calls (gil_save ∷ []) h in
    ground (arith, g)
break_finishes signum int_active term_active use_after_free h = tt
break_finishes signum int_active term_active out_of_fuel h = tt

break-Leaves :
    (signum fuel : ℕ) (int_active term_active : Bool) (errors : ℕ → Bool) (self : EventLoop)
    → LeavesBroken false (on_break_signal signum fuel int_active term_active errors self)
unfolding on_break_signal event_loop_break
break-Leaves signum fuel int_active term_active errors self =
    break_finishes signum int_active term_active
      (close_commands fuel errors self.listen_commands self)
      (close_commands-Leaves fuel errors self.listen_commands self)

abbrev LeavesQueue : Option (CmdQ × EventLoop × List Call) → Type 0
LeavesQueue none = Unit
LeavesQueue (some (q, self, calls)) = gil_after false calls ≡ some false

turn-Leaves :
    (q : CmdQ) (self : EventLoop) (calls : List Call) (last : Bool)
    (rest : Option (CmdQ × EventLoop × List Call))
    → gil_after false calls ≡ some false
    → LeavesQueue rest
    → LeavesQueue (
        if last
        then some (q, self, calls)
        else (elim rest [ none ↦ none | some (q', self', more) ↦ some (q', self', calls ++ more) ]))
turn-Leaves q self calls true rest h k = h
turn-Leaves q self calls false none h k = tt
turn-Leaves q self calls false (some (q', self', more)) h k =
    gil_after-append false false calls more h ∙ k

on_cmdq_ready-Leaves :
    (fuel : ℕ) (answers : ℕ → Answers) (turn : ℕ) (arrivals : List (List Cmd)) (q : CmdQ)
    (self : EventLoop)
    → LeavesQueue (on_cmdq_ready fuel answers turn arrivals q self)
unfolding on_cmdq_ready gil_after
on_cmdq_ready-Leaves zero answers turn arrivals q self = tt
on_cmdq_ready-Leaves (suc fuel) answers turn arrivals q self =
    let (q', qsize, taken, _) = cmd_q_get (put_all q (now_or_nil arrivals)) in
    elim (Bool-cases (is_negative qsize)) [
      | inl e ↦ rw e refl
      | inr e ↦ elim (Option-cases taken) [
        | inl n ↦ rw (e, n) tt
        | inr (c, s) ↦
            rw (e, s)
              (turn-Leaves q' _ _ (is_zero qsize) _ (handle-gil (answers turn) c self) (
                on_cmdq_ready-Leaves fuel answers (turn + 1) (later_or_nil arrivals) q'
                  (handle (answers turn) c self).0))
      ]
    ]

queue_Leaves :
    (o : Option (CmdQ × EventLoop × List Call))
    → LeavesQueue o
    → Leaves false (elim o [
      | none ↦ unfinished
      | some (q, self, calls) ↦ handled (record { q = q; self = self }) calls
    ])
queue_Leaves none h = tt
queue_Leaves (some (q, self, calls)) h = h

broken_Leaves :
    (l : Loop) (b : Broken)
    → LeavesBroken false b
    → Leaves false (elim b [
      | done self calls ↦ handled (record l { self = self }) calls
      | use_after_free ↦ freed
      | out_of_fuel ↦ unfinished
    ])
broken_Leaves l (done self calls) h = h
broken_Leaves l use_after_free h = tt
broken_Leaves l out_of_fuel h = tt

pub on_handler-Leaves : (h : Handler) (l : Loop) → Leaves false (on_handler h l)
unfolding on_handler gil_after
on_handler-Leaves (queue_ready fuel answers arrivals) l =
    queue_Leaves (on_cmdq_ready fuel answers 0 arrivals l.q l.self)
      (on_cmdq_ready-Leaves fuel answers 0 arrivals l.q l.self)
on_handler-Leaves (connects address result revents c) l =
    elim (Option-cases (l.self.objects address)) [
      | inl n ↦ rw (n, Leaves) tt
      | inr (o, s) ↦
          rw (s, Leaves)
            (listen_socket-gil o.cmd (record { on_error = l.self.on_error; result = result })
              revents c l.self.established_sockets)
    ]
on_handler-Leaves (ready socket revents size_read config) l =
    (est_socket-gil 0 0 true config socket revents size_read).1
on_handler-Leaves (break_signal signum fuel int_active term_active errors) l =
    broken_Leaves l (on_break_signal signum fuel int_active term_active errors l.self)
      (break-Leaves signum fuel int_active term_active errors l.self)
on_handler-Leaves (puts cs) l = refl
