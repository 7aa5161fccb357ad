-- ===== src/Singlev/CmdQ/Laws.antt =====
-- What the queue of singlev/src/cmdq.c does to the commands that it holds, by the laws of the queue
-- of pyglev/pyglev/core/cmdq.c, with which it agrees.
use striga2_pocs.Base.{
  ℕ, suc, ◌+◌, ◌<◌, ◌≤◌, ◌^◌, ◌≡◌, refl, sym, ◌∙◌, ap, subst, inl, inr, Bool, true, none, some,
  List, [], ◌∷◌, ◌++◌, length, length-append, arith, ==-cases, pos, negsuc,
}
use striga2_pocs.Calls.{
  Call, count, count-append, gil_after-append, gil_after, mutex_init, async_init, returns,
  is_keeping, is_letting_go,
}
use striga2_pocs.Ring.{Holds, Holds-empty}
use striga2_pocs.Pyglev.CmdQ as Pyglev
use striga2_pocs.Pyglev.CmdQ.Laws as PyglevLaws
use striga2_pocs.Singlev.CmdQ.{Cmd, CmdQ, cmd_q_new, cmd_q_put, cmd_q_get}
use striga2_pocs.Singlev.CmdQ.Agrees.{pyglev_cmds, pyglev_cmd_q, put-agrees, get-agrees}

-- The queue holds commands, as pyglev's does in the same state.
abbrev pub Represents : CmdQ → List Pyglev.Cmd → Type 0
Represents q xs = PyglevLaws.Represents (pyglev_cmd_q q) xs

-- A put leaves one command more, or as many as before.
pub put-holds :
    (q : CmdQ) (xs : List Pyglev.Cmd) (id content : ℕ)
    → Represents q xs
    → (ys : List Pyglev.Cmd) × Represents (cmd_q_put q true id content).0 ys
      × (length ys ≤ length xs + 1)
      × ((cmd_q_put q true id content).0.size ≡ q.size)
put-holds q xs id content r =
    let a = put-agrees q true id content in
    elim (==-cases (length xs + 1) q.size) [
      | inl (_, full) ↦
          let p = PyglevLaws.put-refuses (pyglev_cmd_q q) xs id content r (omega arith) in
          let e = ap (λ x. x.0) (a ∙ p) in
          (xs, subst (λ z. PyglevLaws.Represents z xs) (sym e) r, omega arith, ap (λ z. z.size) e)
      | inr (_, open_) ↦
          let c : Pyglev.Cmd = record { id = id; subject = content } in
          let (_, _, s, r') =
            PyglevLaws.put-accepts (pyglev_cmd_q q) xs id content r (omega (arith, r.cells.fits)) in
          let e = ap (λ x. x.0) a in
          (
            xs ++ c ∷ [],
            subst (λ z. PyglevLaws.Represents z (xs ++ c ∷ [])) (sym e) r',
            omega (arith, length-append xs (c ∷ [])),
            ap (λ z. z.size) e ∙ s,
          )
    ]

pub get-nothing :
    (q : CmdQ) → Represents q [] → ((cmd_q_get q).1 ≡ negsuc 0) × Represents (cmd_q_get q).0 []
get-nothing q r =
    let e = get-agrees q ∙ PyglevLaws.get-empty (pyglev_cmd_q q) r in
    (ap (λ x. x.1) e, subst (λ z. PyglevLaws.Represents z []) (sym (ap (λ x. x.0) e)) r)

pub get-first :
    (q : CmdQ) (x : Pyglev.Cmd) (xs : List Pyglev.Cmd)
    → Represents q (x ∷ xs)
    → ((cmd_q_get q).1 ≡ pos (length xs)) × Represents (cmd_q_get q).0 xs
get-first q x xs r =
    let a = get-agrees q in
    let (s, _, _, _, r') = PyglevLaws.get-oldest (pyglev_cmd_q q) x xs r in
    (ap (λ y. y.1) a ∙ s, subst (λ z. PyglevLaws.Represents z xs) (sym (ap (λ y. y.0) a)) r')

-- Calls that touch neither the interpreter nor what keeps the event loop running.
pub record Apart (calls : List Call) : Type 0 where
  pub gil : (b : Bool) → gil_after b calls ≡ some b
  pub keeping : count is_keeping calls ≡ 0
  pub letting_go : count is_letting_go calls ≡ 0

pub put-Apart :
    (q : CmdQ) (active : Bool) (id content : ℕ) → Apart (cmd_q_put q active id content).2
unfolding cmd_q_put gil_after count is_keeping is_letting_go
put-Apart q active id content = record {
  gil = λ b. ground arith;
  keeping = ground arith;
  letting_go = ground arith;
}

pub get-Apart : (q : CmdQ) → Apart (cmd_q_get q).3
unfolding cmd_q_get gil_after count is_keeping is_letting_go
get-Apart q = record { gil = λ b. ground arith; keeping = ground arith; letting_go = ground arith }

pub log-Apart : Apart (Call.log ∷ [])
unfolding gil_after count is_keeping is_letting_go
log-Apart = record { gil = λ b. ground arith; keeping = refl; letting_go = refl }

pub Apart-append : {cs ds : List Call} → Apart cs → Apart ds → Apart (cs ++ ds)
Apart-append {cs} {ds} c d = record {
  gil = λ b. gil_after-append b b cs ds (c.gil b) ∙ d.gil b;
  keeping = omega (arith, count-append is_keeping cs ds, c.keeping, d.keeping);
  letting_go = omega (arith, count-append is_letting_go cs ds, c.letting_go, d.letting_go);
}

length-pyglev_cmds : (cs : List Cmd) → length (pyglev_cmds cs) ≡ length cs
length-pyglev_cmds [] = refl
length-pyglev_cmds (c ∷ cs) = ap suc (length-pyglev_cmds cs)

-- A queue just made holds nothing, whatever the memory held.
pub new-holds_nothing :
    (size owner : ℕ) (cells : List Cmd)
    → 0 < size
    → size < 2 ^ 31
    → length cells ≡ size
    → (q : CmdQ) × (cmd_q_new size (some cells) ≡ returns (some q, mutex_init ∷ async_init ∷ []))
      × Represents (record q { owner = some owner }) []
unfolding cmd_q_new
new-holds_nothing size owner cells h s e =
    let sized = length-pyglev_cmds cells ∙ e in
    (
      record { size = size; head = 0; tail = 0; owner = none; queue = cells },
      ground arith,
      record {
        small = s;
        cells = subst (λ n. Holds (pyglev_cmds cells) n 0 0 []) sized (Holds-empty _ (omega arith));
      },
    )
