-- ===== src/Pyglev/EventLoop/Life/Lock.antt =====
-- The interpreter lock over the life of the event loop of pyglev/pyglev/core/evloop.c.
use striga2_pocs.Base.{◌≡◌, refl, ◌∙◌, Bool, true, false, some, List, [], ◌∷◌, ◌++◌}
use striga2_pocs.Calls.{Call, gil_restore, gil_save, gil_after, gil_after-append}
use striga2_pocs.Pyglev.EventLoop.Life.{
  Loop, Handler, Handled, handled, freed, unfinished, before, on_handler, on_handlers, run_rounds,
  event_loop_run,
}
use striga2_pocs.Pyglev.EventLoop.Life.Handlers.{Leaves, on_handler-Leaves}

before-Leaves :
    (calls : List Call) (rest : Handled)
    → gil_after false calls ≡ some false
    → Leaves false rest
    → Leaves false (before calls rest)
before-Leaves calls (handled l more) h k = gil_after-append false false calls more h ∙ k
before-Leaves calls freed h k = tt
before-Leaves calls unfinished h k = tt

then_Leaves :
    (first : Handled) (rest : Loop → Handled)
    → Leaves false first
    → ((l : Loop) → Leaves false (rest l))
    → Leaves false (elim first [
      | handled l calls ↦ before calls (rest l)
      | freed ↦ freed
      | unfinished ↦ unfinished
    ])
then_Leaves (handled l calls) rest h k = before-Leaves calls (rest l) h (k l)
then_Leaves freed rest h k = tt
then_Leaves unfinished rest h k = tt

last_Leaves :
    (first : Handled)
    → Leaves false first
    → Leaves false
        (elim first [ handled l calls ↦ handled l calls | freed ↦ freed | unfinished ↦ unfinished ])
last_Leaves (handled l calls) h = h
last_Leaves freed h = tt
last_Leaves unfinished h = tt

run_Leaves :
    (first : Handled)
    → Leaves false first
    → Leaves true (elim first [
      | handled l calls ↦ handled l (gil_save ∷ (calls ++ gil_restore ∷ []))
      | freed ↦ freed
      | unfinished ↦ unfinished
    ])
unfolding gil_after
run_Leaves (handled l calls) h = gil_after-append false false calls (gil_restore ∷ []) h
run_Leaves freed h = tt
run_Leaves unfinished h = tt

on_handlers-Leaves : (hs : List Handler) (l : Loop) → Leaves false (on_handlers hs l)
unfolding on_handlers gil_after
on_handlers-Leaves [] l = refl
on_handlers-Leaves (h ∷ hs) l =
    then_Leaves (on_handler h l) (on_handlers hs) (on_handler-Leaves h l) (on_handlers-Leaves hs)

run_rounds-Leaves :
    (rounds : List (List Handler × Bool)) (l : Loop) → Leaves false (run_rounds rounds l)
unfolding run_rounds
run_rounds-Leaves [] l = tt
run_rounds-Leaves ((hs, true) ∷ more) l =
    then_Leaves (on_handlers hs l) (run_rounds more) (on_handlers-Leaves hs l)
      (run_rounds-Leaves more)
run_rounds-Leaves ((hs, false) ∷ more) l = last_Leaves (on_handlers hs l) (on_handlers-Leaves hs l)

-- Whatever handlers libev calls, in any order and any number of rounds, with whatever they meet: where
-- the event loop comes to its end, the Python thread that called `run` holds the interpreter lock
-- again, and each handler has used the interpreter only while it held the lock, which it took and
-- gave back; and no handler leaves the lock held.
pub event_loop_run-Leaves :
    (rounds : List (List Handler × Bool)) (hs : List Handler) (l : Loop)
    → Leaves true (event_loop_run rounds l) × Leaves false (on_handlers hs l)
unfolding event_loop_run gil_after
event_loop_run-Leaves rounds hs l =
    (run_Leaves (run_rounds rounds l) (run_rounds-Leaves rounds l), on_handlers-Leaves hs l)
