-- ===== src/Tests/PyglevLoop.antt =====
-- The event loop object of pyglev/pyglev/core/evloop.c with one or two listen commands.
use striga2_pocs.Base.{
  ℕ, ◌≡◌, ◌≢◌, refl, inl, inr, Bool, true, false, Option, none, some, List, [], ◌∷◌, arith, length,
  ◌==◌, if◌then◌else◌,
}
use striga2_pocs.Pyglev.CmdQ.{Cmd}
use striga2_pocs.Pyglev.ListenCmd.{ListenCmd, Status}
use striga2_pocs.Pyglev.EventLoop.{EventLoop, Object, Answers, handle}
use striga2_pocs.Pyglev.EventLoop.Break.{done, use_after_free, event_loop_break}
use striga2_pocs.Pyglev.EventLoop.Break.Closes.{BreaksOff, event_loop_break-closes}
use striga2_pocs.Pyglev.EventLoop.Break.Faults.{
  event_loop_break-use_after_free, listen_twice-never_breaks,
}
use striga2_pocs.Pyglev.EventLoop.Objects.{event_loop_tp_traverse}

abbrev listening_on : ℕ → List ℕ → ListenCmd
listening_on next fds = record {
  next = next;
  on_accept = none;
  host = none;
  port = "8080";
  backlog = 20;
  status = Status.listening;
  watchers_count = length fds;
  watchers = some fds;
}

-- Two commands, at the addresses 7 and 9, with `refs` references each.
abbrev stored : ℕ → ℕ → Option Object
stored refs p =
    if p == 7
    then some (record { cmd = listening_on 9 (3 ∷ 4 ∷ []); refs = refs })
    else (if p == 9 then some (record { cmd = listening_on 0 (5 ∷ []); refs = refs }) else none)

abbrev running : ℕ → EventLoop
running refs = record {
  on_error = some 20;
  listen_commands = 7;
  established_sockets = [];
  objects = stored refs;
}

abbrev never : ℕ → Bool
never fd = false

abbrev unanswered : Answers
unanswered = record { result = none; resolved = none; reported = none }

seven-open : Status.listening ≢ Status.closed
seven-open e = cc

event_loop_break-closes_example :
    BreaksOff (stored 2) (7 ∷ 9 ∷ []) (event_loop_break 3 true true never (running 2))
event_loop_break-closes_example =
    event_loop_break-closes 3 true true never (running 2) (7 ∷ 9 ∷ [])
      (
        refl,
        (λ e. omega arith),
        ((λ e. omega arith), tt),
        (
          record { cmd = listening_on 9 (3 ∷ 4 ∷ []); refs = 2 },
          refl,
          omega arith,
          seven-open,
          (
            refl,
            (λ e. omega arith),
            tt,
            (
              record { cmd = listening_on 0 (5 ∷ []); refs = 2 },
              refl,
              omega arith,
              seven-open,
              refl,
            ),
          ),
        ),
      )
      (omega arith)

-- The second command has no other reference.
abbrev second_dropped : EventLoop
second_dropped = record (running 2) { objects = λ p. if p == 9 then stored 1 9 else stored 2 p }

event_loop_break-use_after_free_example :
    event_loop_break 3 true true never second_dropped ≡ use_after_free
event_loop_break-use_after_free_example =
    event_loop_break-use_after_free 3 true true never second_dropped (7 ∷ 9 ∷ []) (omega arith)
      (
        refl,
        (λ e. omega arith),
        ((λ e. omega arith), tt),
        (
          record { cmd = listening_on 9 (3 ∷ 4 ∷ []); refs = 2 },
          refl,
          (
            refl,
            (λ e. omega arith),
            tt,
            (record { cmd = listening_on 0 (5 ∷ []); refs = 1 }, refl, refl),
          ),
        ),
      )
      (inr (inl (record { cmd = listening_on 0 (5 ∷ []); refs = 1 }, refl, refl)))

listen_twice-never_breaks_example :
    let c : Cmd = record { id = 50; subject = 7 } in
    event_loop_break 100 true true never (handle unanswered c (handle unanswered c (running 9)).0).0
    ≢ done (running 9) []
listen_twice-never_breaks_example =
    listen_twice-never_breaks unanswered unanswered 7 100 true true never (running 9) (running 9)
      (record { cmd = listening_on 9 (3 ∷ 4 ∷ []); refs = 9 }) [] (λ e. omega arith) refl

abbrev traversed : EventLoop
traversed = record (running 2) { listen_commands = 0 }

running-traversed : event_loop_tp_traverse 3 (running 2) ≡ some traversed
unfolding event_loop_tp_traverse
running-traversed = refl
