-- ===== src/Greenev/CmdQCv/Refines.antt =====
-- The queue of greenev/cmdq_cv.c as a whole, where no thread has to wait: a first-in first-out list.
use striga2_pocs.Base.{
  ℕ, ◌-◌, ◌+◌, ◌^◌, ◌<◌, ◌≤◌, ◌≡◌, refl, Bool, true, false, Option, none, some, List, [], ◌∷◌, ◌++◌,
  length, arith,
}
use striga2_pocs.Calls.{Call, Outcome, returns, aborts, mutex_init, cond_init}
use striga2_pocs.Fifo.{Queue, Request, serve_all, respond_all, respond_all-eq-serve_all}
use striga2_pocs.Greenev.Cmd.{Cmd}
use striga2_pocs.Greenev.CmdQCv.{
  CondCmdQ, cond_cmd_q_new, cond_cmd_q_put, cond_cmd_q_get, cond_cmd_q_full,
}
use striga2_pocs.Greenev.CmdQCv.Wait.{wait_while}
use striga2_pocs.Greenev.CmdQCv.Indices.{
  Represents, Represents-indices_in, new-Represents, full_iff, empty_iff,
}
use striga2_pocs.Greenev.CmdQCv.Put.{put-at_once}
use striga2_pocs.Greenev.CmdQCv.Get.{get-at_once}

-- A call during which nothing happens to the queue: `none` is one that waits.
abbrev pub put_alone : CondCmdQ → Cmd → Outcome (Option (CondCmdQ × Bool × List Call))
put_alone this c = cond_cmd_q_put this c.id c.arg 0 [] 0

abbrev pub get_alone : CondCmdQ → Outcome (Option (CondCmdQ × Bool × Option Cmd × List Call))
get_alone this = cond_cmd_q_get this 0 [] 0

-- The answers, for a client that gives up where it would have to wait.
abbrev pub put_cmd : CondCmdQ → Cmd → CondCmdQ × Bool
put_cmd this c = elim (put_alone this c) [
  | aborts ↦ (this, false)
  | returns none ↦ (this, false)
  | returns (some (this', done, calls)) ↦ (this', done)
]

abbrev pub get_cmd : CondCmdQ → CondCmdQ × Option Cmd
get_cmd this = elim (get_alone this) [
  | aborts ↦ (this, none)
  | returns none ↦ (this, none)
  | returns (some (this', done, cmd_out, calls)) ↦ (this', cmd_out)
]

-- A put into a full queue waits, and so does a get from an empty one.
pub put-waits :
    (size : ℕ) (this : CondCmdQ) (xs : List Cmd) (c : Cmd)
    → Represents this size xs
    → size ≤ length xs + 1
    → put_alone this c ≡ returns none
unfolding cond_cmd_q_put wait_while
put-waits size this xs c r h =
    let full : cond_cmd_q_full this ≡ true = ground (arith, full_iff r, r.cells.fits) in
    rw (Represents-indices_in r, full) refl

pub get-waits :
    (size : ℕ) (this : CondCmdQ) → Represents this size [] → get_alone this ≡ returns none
unfolding cond_cmd_q_get wait_while
get-waits size this r = rw (Represents-indices_in r, empty_iff r) refl

pub put_cmd-accepts :
    (size : ℕ) (this : CondCmdQ) (xs : List Cmd) (c : Cmd)
    → Represents this size xs
    → length xs < size - 1
    → ((put_cmd this c).1 ≡ true) × Represents (put_cmd this c).0 size (xs ++ c ∷ [])
put_cmd-accepts size this xs c r h =
    let (this', e, r') = put-at_once this size xs c.id c.arg [] r (omega arith) in
    rw (e, put_cmd) (refl, r')

pub get_cmd-oldest :
    (size : ℕ) (this : CondCmdQ) (x : Cmd) (xs : List Cmd)
    → Represents this size (x ∷ xs)
    → ((get_cmd this).1 ≡ some x) × Represents (get_cmd this).0 size xs
get_cmd-oldest size this x xs r =
    let (this', e, r') = get-at_once this size x xs [] r in rw (e, get_cmd) (refl, r')

abbrev pub cond_cmd_q_queue : ℕ → Queue CondCmdQ Cmd
cond_cmd_q_queue size = record {
  capacity = size - 1;
  holds = λ this xs. Represents this size xs;
  put = put_cmd;
  get = get_cmd;
  put_accepts = put_cmd-accepts size;
  put_refuses =
      λ this xs c r h. let e = put-waits size this xs c r (omega arith) in rw (e, put_cmd) refl;
  get_nothing = λ this r. let e = get-waits size this r in rw (e, get_cmd) refl;
  get_oldest = get_cmd-oldest size;
}

-- From a new queue of `size` cells on, every sequence of puts and gets, by clients that give up
-- where they would have to wait, is answered as the list of at most `size - 1` commands answers it:
-- commands come out in the order in which they went in, a put is given up exactly when `size - 1`
-- commands are held, and a get exactly when none is. `size` is positive and below 2 ^ 32, and the
-- calls that lock and unlock the mutex succeed.
pub cond_cmd_q-eq-fifo :
    (size : ℕ) (cells : List Cmd) (rs : List (Request Cmd))
    → 0 < size
    → size < 2 ^ 32
    → length cells ≡ size
    → (this : CondCmdQ) × (cond_cmd_q_new size (some cells) 0 0 0
        ≡ returns (some this, mutex_init ∷ cond_init 0 ∷ cond_init 1 ∷ []))
      × (respond_all (cond_cmd_q_queue size) this rs ≡ serve_all (size - 1) [] rs)
cond_cmd_q-eq-fifo size cells rs h s e =
    let (this, made, r) = new-Represents size cells h s e in
    (this, made, respond_all-eq-serve_all (cond_cmd_q_queue size) this [] rs r)
