-- ===== src/Greenev/System/Steps.antt =====
-- The steps of the threads of greenev one by one: what each does with a descriptor.
use striga2_pocs.Base.{
  ℕ, ◌+◌, ◌-◌, ◌≡◌, refl, sym, ◌∙◌, ap, subst, inl, inr, Bool, true, false, Option, none, some,
  List, [], ◌∷◌, map, arith, ==-cases, ℤ,
}
use striga2_pocs.Calls.{Call, opens, closes}
use striga2_pocs.Fifo.{admit, admit-nil}
use striga2_pocs.Greenev.Cmd.{Cmd}
use striga2_pocs.Greenev.CmdQEv.{WatcherCmdQ, take_cmd, put_all}
use striga2_pocs.Greenev.CmdQEv.Laws.{put-Descriptors, take_nothing, take_oldest}
use striga2_pocs.Greenev.CmdQEv.Drain.{Keeps, put_all-Keeps}
use striga2_pocs.Greenev.IoThread.{
  SockObj, IoThread, Ended, ended, asserted_out, used_after_free, overran, on_iot_cmd,
  on_io_thread_accept, on_io_thread_readwrite, io_thread_die, iot_cmd_io_thread_die,
}
use striga2_pocs.Greenev.IoThread.Connecting.{
  new_sockobj, Address, io_thread_listen, io_thread_connect,
}
use striga2_pocs.Greenev.IoThread.Connecting.Listen.{commands, listen-descriptors, listen-queued}
use striga2_pocs.Greenev.IoThread.Connecting.Connect.{connect-descriptors}
use striga2_pocs.Greenev.IoThread.Life.{command, on_io_event}
use striga2_pocs.Greenev.IoThread.Life.Accounts.{times, times-append, held, fds, brought}
use striga2_pocs.Greenev.IoThread.Life.Events.{command-Account, accept-Account}
use striga2_pocs.Greenev.IoThread.Life.Whole.{die-Account}
use striga2_pocs.Greenev.System.{
  System, Listed, refused, establishing, die_cmd, made_objects, rest, putting, Placed,
}
use striga2_pocs.Greenev.System.Reads.{Settled, readwrite-Settled}
use striga2_pocs.Greenev.System.Pending.{
  pending, pending-append, admit-pending, commands-pending, standing,
}

-- What a handler of the thread does with a descriptor, and that it leaves the queue alone.
abbrev Kept : ℕ → IoThread → List ℕ → Ended IoThread → Type 0
Kept fd this bringing (ended this' calls) =
    (times fd (opens calls) + times fd bringing + times fd (held this)
      ≡ times fd (closes calls) + times fd (held this'))
    × (this'.cmd_q ≡ this.cmd_q)
Kept fd this bringing asserted_out = Unit
Kept fd this bringing used_after_free = Unit
Kept fd this bringing overran = Unit

module _ (memory : ℕ → SockObj) (intact : ℕ → Bool) (size callbackarg fd : ℕ) where
  cmd-Kept :
      (this : IoThread) (cmd : Cmd)
      → ((address : ℕ) → intact address ≡ true)
      → Kept fd this (brought memory (command cmd ∷ [])) (on_iot_cmd memory intact this cmd)
  unfolding brought on_io_event times
  cmd-Kept this cmd h = elim (==-cases cmd.id iot_cmd_io_thread_die) [
    | inl (_, p) ↦
        let (calls, e, a) = die-Account memory intact this cmd.arg h in
        let path : cmd ≡ record { id = iot_cmd_io_thread_die; arg = cmd.arg } =
          ap (λ (i : ℕ). record { id = i; arg = cmd.arg }) p in
        subst
          (λ c. Kept fd this (brought memory (command c ∷ [])) (on_iot_cmd memory intact this c))
          (sym path) (subst (Kept fd this []) (sym e) ((a fd).descriptors, refl))
    | inr (d, _) ↦
        let (this', calls, e, a, _, same) = command-Account memory intact this cmd d in
        subst (Kept fd this (brought memory (command cmd ∷ []))) (sym e) ((a fd).descriptors, same)
  ]

  putting-standing :
      (s : System) (q : WatcherCmdQ) (cs : List Cmd)
      → standing memory fd (putting memory intact size s q cs)
        ≡ standing memory fd s + times fd (pending memory cs)
  unfolding standing
  putting-standing s q cs = omega (
    arith,
    admit-pending memory fd (size - 1) s.waiting cs,
    pending-append memory fd (refused (size - 1) s.waiting cs) s.lost,
  )

  -- What a step keeps.
  unfoldable pub Stepped : System → List Call → System → Type 0
  Stepped s calls s' =
      (times fd (opens calls) + standing memory fd s
        ≡ times fd (closes calls) + standing memory fd s')
      × Keeps s'.thread.cmd_q size callbackarg s'.waiting

  -- Commands that are put, for as many descriptors as are opened and not closed.
  put-Stepped :
      (s : System) (q : WatcherCmdQ) (cs : List Cmd) (calls : List Call)
      → times fd (opens calls) ≡ times fd (closes calls) + times fd (pending memory cs)
      → Keeps q size callbackarg (admit (size - 1) s.waiting cs)
      → Stepped s calls (putting memory intact size s q cs)
  unfolding Stepped
  put-Stepped s q cs calls e k = (omega (arith, putting-standing s q cs, e), k)

  pub listens-Stepped :
      (s : System) (resolved : Option (List Address))
      → Keeps s.thread.cmd_q size callbackarg s.waiting
      → Placed memory intact size (io_thread_listen s.thread.cmd_q resolved).1
      → let (q, objects, calls) = io_thread_listen s.thread.cmd_q resolved in
        Stepped s calls (putting memory intact size s q (commands objects))
  unfolding times
  listens-Stepped s resolved k placed =
      let q = s.thread.cmd_q in
      let (q', objects, calls) = io_thread_listen q resolved in
      let brings = ap (times fd) (commands-pending memory objects ∙ ap fds placed) in
      put-Stepped s q' (commands objects) calls
        (elim (listen-descriptors q resolved) [
          | inl (_, none_made, _, closed) ↦
              omega (arith, brings, ap (λ xs. times fd (fds xs)) none_made, ap (times fd) closed)
          | inr (_, _, _, _, kept, closed, _) ↦
              omega (arith, brings, ap (times fd) kept, ap (times fd) closed)
        ])
        (listen-queued q size callbackarg s.waiting resolved k)

  establishing-pending :
      (made : Option SockObj)
      → pending memory (establishing made) ≡ fds (map (λ s. memory s.address) (made_objects made))
  unfolding pending brought
  establishing-pending none = refl
  establishing-pending (some s) = refl

  pub connects-Stepped :
      (s : System) (resolved : Option (List Address))
      → Keeps s.thread.cmd_q size callbackarg s.waiting
      → Placed memory intact size (made_objects (io_thread_connect s.thread.cmd_q resolved).1)
      → let (q, made, calls) = io_thread_connect s.thread.cmd_q resolved in
        Stepped s calls (putting memory intact size s q (establishing made))
  unfolding times put_all
  connects-Stepped s resolved k placed =
      let q = s.thread.cmd_q in
      let (q', made, calls) = io_thread_connect q resolved in
      let brings = ap (times fd) (establishing-pending made ∙ ap fds placed) in
      elim (connect-descriptors q resolved) [
        | inl (_, none_made, same, closed) ↦
            put-Stepped s q' (establishing made) calls
              (omega (
                arith,
                brings,
                ap (λ o. times fd (fds (made_objects o))) none_made,
                ap (times fd) closed,
              ))
              (rw (none_made, same, admit-nil) k)
        | inr (a, fd₁, _, _, made_one, kept, put_one) ↦
            put-Stepped s q' (establishing made) calls
              (omega (
                arith,
                brings,
                ap (λ o. times fd (fds (made_objects o))) made_one,
                ap (times fd) kept,
                times-append fd (closes calls) (fd₁ ∷ []),
              ))
              (rw (made_one, put_one)
                (put_all-Keeps q size callbackarg s.waiting
                  (establishing (some (new_sockobj a fd₁))) k))
      ]

  pub dies-Stepped :
      (s : System)
      → Keeps s.thread.cmd_q size callbackarg s.waiting
      → let (q, calls) = io_thread_die s.thread.cmd_q in
        Stepped s calls (putting memory intact size s q (die_cmd ∷ []))
  unfolding io_thread_die pending brought times put_all
  dies-Stepped s k =
      let d = put-Descriptors s.thread.cmd_q iot_cmd_io_thread_die 0 in
      put-Stepped s _ (die_cmd ∷ []) _
        (omega (arith, ap (times fd) d.opening, ap (times fd) d.closing))
        (put_all-Keeps s.thread.cmd_q size callbackarg s.waiting (die_cmd ∷ []) k)

  -- What the thread takes is the oldest command that waits.
  pub oldest :
      (q : WatcherCmdQ) (xs : List Cmd) (cmd : Cmd)
      → Keeps q size callbackarg xs
      → (take_cmd q).1 ≡ some cmd
      → (ys : List Cmd) × (xs ≡ cmd ∷ ys) × Keeps (take_cmd q).0 size callbackarg ys
  oldest q [] cmd k e =
      let nothing = take_nothing q k.represents in absurd (ground (arith, ap (λ r. r.1) nothing, e))
  oldest q (x ∷ xs) cmd k e =
      let (first, sized, owned, r) = take_oldest q x xs k.represents in
      let same : x ≡ cmd =
        ap (λ (o : Option Cmd). elim o [ none ↦ x | some y ↦ y ]) (sym first ∙ e) in
      (
        xs,
        ap (λ y. y ∷ xs) same,
        record { represents = r; sized = sized ∙ k.sized; owned = owned ∙ k.owned },
      )

  pub takes-Stepped :
      (s : System) (cmd : Cmd) (thread' : IoThread) (calls : List Call)
      → ((address : ℕ) → intact address ≡ true)
      → Keeps s.thread.cmd_q size callbackarg s.waiting
      → (take_cmd s.thread.cmd_q).1 ≡ some cmd
      → on_iot_cmd memory intact (record (s.thread) { cmd_q = (take_cmd s.thread.cmd_q).0 }) cmd
        ≡ ended thread' calls
      → Stepped s calls (record { thread = thread'; waiting = rest s.waiting; lost = s.lost })
  unfolding Stepped standing pending
  takes-Stepped s cmd thread' calls h k taken done_ =
      let this : IoThread = record (s.thread) { cmd_q = (take_cmd s.thread.cmd_q).0 } in
      let b = brought memory (command cmd ∷ []) in
      let (ys, first, k') = oldest s.thread.cmd_q s.waiting cmd k taken in
      let (e, same) = subst (Kept fd this b) done_ (cmd-Kept this cmd h) in
      let behind : rest s.waiting ≡ ys = ap rest first in
      (
        omega (
          arith,
          e,
          ap (λ xs. times fd (pending memory xs)) first,
          times-append fd b (pending memory ys),
          ap (λ xs. times fd (pending memory xs)) behind,
        ),
        subst (λ q. Keeps q size callbackarg (rest s.waiting)) (sym same)
            (subst (Keeps this.cmd_q size callbackarg) (sym behind) k'),
      )

  accept-cmd_q :
      (this : IoThread) (l : SockObj) (is_error is_read : Bool) (client : Option (ℕ × ℕ))
      (has_app : Bool) (address : ℕ)
      → (on_io_thread_accept this l is_error is_read client has_app address).0.cmd_q ≡ this.cmd_q
  unfolding on_io_thread_accept
  accept-cmd_q this l true r c a address = refl
  accept-cmd_q this l false false c a address = refl
  accept-cmd_q this l false true none a address = refl
  accept-cmd_q this l false true (some (client, peer)) false address = refl
  accept-cmd_q this l false true (some (client, peer)) true address = refl

  pub accepts-Stepped :
      (s : System) (l : SockObj) (is_error is_read : Bool) (client : Option (ℕ × ℕ))
      (has_app : Bool) (address : ℕ)
      → Keeps s.thread.cmd_q size callbackarg s.waiting
      → let (this', calls) =
          on_io_thread_accept s.thread l is_error is_read client has_app address in
        Stepped s calls (record s { thread = this' })
  unfolding Stepped standing times
  accepts-Stepped s l is_error is_read client has_app address k =
      let (a, _) = accept-Account fd s.thread l is_error is_read client has_app address in
      (
        omega (arith, a.descriptors),
        subst (λ q. Keeps q size callbackarg s.waiting)
            (sym (accept-cmd_q s.thread l is_error is_read client has_app address)) k,
      )

  pub reads-Stepped :
      (s : System) (sockobj : SockObj) (is_read : Bool) (count : ℤ) (thread' : IoThread)
      (calls : List Call)
      → Keeps s.thread.cmd_q size callbackarg s.waiting
      → Listed sockobj s.thread.established
      → on_io_thread_readwrite s.thread sockobj is_read count ≡ ended thread' calls
      → Stepped s calls (record s { thread = thread' })
  unfolding Stepped standing
  reads-Stepped s sockobj is_read count thread' calls k l done_ =
      let (e, same) =
        subst (Settled fd s.thread) done_ (readwrite-Settled fd s.thread sockobj is_read count l) in
      (omega (arith, e), subst (λ q. Keeps q size callbackarg s.waiting) (sym same) k)
