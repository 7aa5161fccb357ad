-- ===== src/Pyglev/CmdQ/Refines.antt =====
-- The command queue of pyglev/pyglev/core/cmdq.c as a whole: it cannot be told from a list of at
-- most `size - 1` commands, and its mutex is never left locked.
use striga2_pocs.Base.{
  ℕ, ◌-◌, ◌^◌, ◌<◌, ◌≤◌, ◌≡◌, ◌∙◌, Bool, true, false, Option, none, some, List, [], ◌∷◌, length,
  arith,
}
use striga2_pocs.Calls.{returns, mutex_after, mutex_init, async_init}
use striga2_pocs.Fifo.{Queue, Request, serve_all, respond_all, respond_all-eq-serve_all}
use striga2_pocs.Pyglev.CmdQ.{Cmd, CmdQ, cmd_q_new, cmd_q_put, cmd_q_get}
use striga2_pocs.Pyglev.CmdQ.Laws.{
  Represents, put-accepts, put-refuses, get-empty, get-oldest, cmd_q_new-Represents,
}

-- The operations on a queue of `size` cells whose watcher is active.
abbrev pub put_cmd : CmdQ → Cmd → CmdQ × Bool
put_cmd q c = let r = cmd_q_put q true c.id c.subject in (r.0, r.1)

abbrev pub get_cmd : CmdQ → CmdQ × Option Cmd
get_cmd q = let r = cmd_q_get q in (r.0, r.2)

pub put_cmd-refuses :
    (size : ℕ) (q : CmdQ) (xs : List Cmd) (a : Cmd)
    → Represents q xs × (q.size ≡ size)
    → size - 1 ≤ length xs
    → put_cmd q a ≡ (q, false)
put_cmd-refuses size q xs a (r, e) h =
    let p = put-refuses q xs a.id a.subject r (omega arith) in rw p

pub get_cmd-empty :
    (size : ℕ) (q : CmdQ) → Represents q [] × (q.size ≡ size) → get_cmd q ≡ (q, none)
get_cmd-empty size q (r, e) = let p = get-empty q r in rw p

abbrev pub cmd_q_queue : ℕ → Queue CmdQ Cmd
cmd_q_queue size = record {
  capacity = size - 1;
  holds = λ q xs. Represents q xs × (q.size ≡ size);
  put = put_cmd;
  get = get_cmd;
  put_accepts = λ q xs a (r, e) h.
      let p = put-accepts q xs a.id a.subject r (omega arith) in (p.0, (p.3, p.2 ∙ e));
  put_refuses = put_cmd-refuses size;
  get_nothing = get_cmd-empty size;
  get_oldest = λ q x xs (r, e). let p = get-oldest q x xs r in (p.1, (p.4, p.3 ∙ e));
}

-- From a new queue of `size` cells on, every sequence of puts and gets is answered as the list of
-- at most `size - 1` commands answers it: commands come out in the order in which they went in,
-- none is lost or doubled, and a put is refused exactly when `size - 1` commands wait. The watcher
-- is active throughout, and `size` is positive and below 2 ^ 31.
pub cmd_q-eq-fifo :
    (size : ℕ) (cells : List Cmd) (rs : List (Request Cmd))
    → 0 < size
    → size < 2 ^ 31
    → length cells ≡ size
    → (q : CmdQ) × (cmd_q_new size (some cells) ≡ returns (some q, mutex_init ∷ async_init ∷ []))
      × (respond_all (cmd_q_queue size) q rs ≡ serve_all (size - 1) [] rs)
cmd_q-eq-fifo size cells rs h s e =
    let (q, made, sized, r) = cmd_q_new-Represents size cells h s e in
    (q, made, respond_all-eq-serve_all (cmd_q_queue size) q [] rs (r, sized))

-- In every state, with the watcher active or not, put and get take the mutex at most once and give
-- it back before they return.
pub cmd_q-mutex_balanced :
    (q : CmdQ) (active : Bool) (id subject : ℕ)
    → (mutex_after false (cmd_q_put q active id subject).2 ≡ some false)
      × (mutex_after false (cmd_q_get q).3 ≡ some false)
unfolding cmd_q_put cmd_q_get mutex_after
cmd_q-mutex_balanced q active id subject = ground arith

-- A put that is refused, because the watcher is stopped or the queue is full, changes nothing.
pub put_refused_unchanged :
    (q : CmdQ) (active : Bool) (id subject : ℕ)
    → (cmd_q_put q active id subject).1 ≡ false
    → (cmd_q_put q active id subject).0 ≡ q
unfolding cmd_q_put
put_refused_unchanged q active id subject = ground arith
