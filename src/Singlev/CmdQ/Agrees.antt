-- ===== src/Singlev/CmdQ/Agrees.antt =====
-- The queue of singlev/src/cmdq.c next to that of pyglev/pyglev/core/cmdq.c: two texts with one
-- behaviour, but for the warning when a queue is deleted.
use striga2_pocs.Base.{
  ℕ, zero, suc, ◌≡◌, refl, ap, Bool, Option, none, some, List, [], ◌∷◌, get_elem?, set, arith, ℤ,
}
use striga2_pocs.Calls.{Call}
use striga2_pocs.Pyglev.CmdQ as Pyglev
use striga2_pocs.Singlev.CmdQ.{Cmd, CmdQ, cmd_q_put, cmd_q_get}

-- A command of singlev as one of pyglev, and so a queue.
abbrev pub pyglev_cmd : Cmd → Pyglev.Cmd
pyglev_cmd c = record { id = c.id; subject = c.content }

abbrev pub pyglev_cmds : List Cmd → List Pyglev.Cmd
pyglev_cmds [] = []
pyglev_cmds (c ∷ cs) = pyglev_cmd c ∷ pyglev_cmds cs

abbrev pub pyglev_cmd_q : CmdQ → Pyglev.CmdQ
pyglev_cmd_q q = record {
  size = q.size;
  head = q.head;
  tail = q.tail;
  owner = q.owner;
  queue = pyglev_cmds q.queue;
}

abbrev pub pyglev_option : Option Cmd → Option Pyglev.Cmd
pyglev_option none = none
pyglev_option (some c) = some (pyglev_cmd c)

pyglev_cmds-set :
    (cs : List Cmd) (i : ℕ) (c : Cmd)
    → pyglev_cmds (set cs i c) ≡ set (pyglev_cmds cs) i (pyglev_cmd c)
pyglev_cmds-set [] i c = refl
pyglev_cmds-set (d ∷ cs) zero c = refl
pyglev_cmds-set (d ∷ cs) (suc i) c = ap (◌∷◌ (pyglev_cmd d)) (pyglev_cmds-set cs i c)

pyglev_option-get_elem? :
    (cs : List Cmd) (i : ℕ) → pyglev_option (get_elem? cs i) ≡ get_elem? (pyglev_cmds cs) i
pyglev_option-get_elem? [] i = refl
pyglev_option-get_elem? (d ∷ cs) zero = refl
pyglev_option-get_elem? (d ∷ cs) (suc i) = pyglev_option-get_elem? cs i

-- A put, and below a get, go the same way in both.
pub put-agrees :
    (q : CmdQ) (active : Bool) (id content : ℕ)
    → let (q', done, calls) = cmd_q_put q active id content in
      (pyglev_cmd_q q', done, calls) ≡ Pyglev.cmd_q_put (pyglev_cmd_q q) active id content
unfolding cmd_q_put Pyglev.cmd_q_put
put-agrees q active id content =
    ground (arith, pyglev_cmds-set q.queue q.head (record { id = id; content = content }))

pub get-agrees :
    (q : CmdQ)
    → let (q', size, taken, calls) = cmd_q_get q in
      (pyglev_cmd_q q', size, pyglev_option taken, calls) ≡ Pyglev.cmd_q_get (pyglev_cmd_q q)
unfolding cmd_q_get Pyglev.cmd_q_get
get-agrees q = ground (arith, pyglev_option-get_elem? q.queue q.tail)

-- A use of a queue: a put, with the watcher active or not, or a get.
pub data Operation : Type 0 where
  put : (active : Bool) → (id content : ℕ) → Operation
  get : Operation

-- What it returns: the `bool` or the `int`, the command taken, and the calls.
pub data Answer : Type 0 where
  stored : Bool → List Call → Answer
  taken : ℤ → Option Pyglev.Cmd → List Call → Answer

pub singlev_answers : CmdQ → List Operation → List Answer
singlev_answers q [] = []
singlev_answers q (put active id content ∷ more) =
    let (q', done, calls) = cmd_q_put q active id content in
    stored done calls ∷ singlev_answers q' more
singlev_answers q (get ∷ more) =
    let (q', size, cmd, calls) = cmd_q_get q in
    taken size (pyglev_option cmd) calls ∷ singlev_answers q' more

pub pyglev_answers : Pyglev.CmdQ → List Operation → List Answer
pyglev_answers q [] = []
pyglev_answers q (put active id content ∷ more) =
    let (q', done, calls) = Pyglev.cmd_q_put q active id content in
    stored done calls ∷ pyglev_answers q' more
pyglev_answers q (get ∷ more) =
    let (q', size, cmd, calls) = Pyglev.cmd_q_get q in taken size cmd calls ∷ pyglev_answers q' more

-- From any state, whole or broken, and with the watcher active or not at each put, every sequence of
-- puts and gets is answered alike by the queue of singlev and by that of pyglev: the same results,
-- the same commands and the same calls in the same order.
pub answers-eq-pyglev :
    (q : CmdQ) (operations : List Operation)
    → singlev_answers q operations ≡ pyglev_answers (pyglev_cmd_q q) operations
unfolding singlev_answers pyglev_answers
answers-eq-pyglev q [] = refl
answers-eq-pyglev q (put active id content ∷ more) =
    let (q', done, calls) = cmd_q_put q active id content in
    cc (put-agrees q active id content, answers-eq-pyglev q' more)
answers-eq-pyglev q (get ∷ more) =
    let (q', size, cmd, calls) = cmd_q_get q in cc (get-agrees q, answers-eq-pyglev q' more)
