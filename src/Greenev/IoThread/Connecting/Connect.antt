-- ===== src/Greenev/IoThread/Connecting/Connect.antt =====
-- What `io_thread_connect` of greenev/iothread.c does with descriptors, and when it logs an error.
use striga2_pocs.Base.{
  ℕ, ◌≡◌, refl, sym, ◌∙◌, subst, ap, ap₂, ◌⊎◌, inl, inr, Bool, true, Option, none, some, List, [],
  ◌∷◌, ◌++◌, append-nil, append_assoc, arith, Bool-cases, Option-cases, if◌then◌else◌, false, ◌&&◌,
}
use striga2_pocs.Calls.{
  Call, log, malloc, io_init, close, resolved_free, opened, set_option, connect, opens, closes,
  opens-append, closes-append, count, is_log, Descriptors, Descriptors-append, count-append,
}
use striga2_pocs.Greenev.CmdQEv.{WatcherCmdQ, watcher_cmd_q_put}
use striga2_pocs.Greenev.CmdQEv.Laws.{put-Descriptors, put-logs_nothing}
use striga2_pocs.Greenev.IoThread.{SockObj, iot_cmd_io_thread_establish}
use striga2_pocs.Greenev.IoThread.Connecting.{
  Address, new_sockobj, naming, try_addresses, io_thread_connect,
}

-- Whether the system lets a socket connect to an address.
abbrev can_connect : Address → Bool
can_connect a = elim a.socket [ none ↦ false | some fd ↦ a.option_set && a.succeeds ]

-- The first address that can be connected to.
abbrev first_connecting : List Address → Option Address
first_connecting [] = none
first_connecting (a ∷ more) = if can_connect a then some a else first_connecting more

abbrev pub resolved_connecting : Option (List Address) → Option Address
resolved_connecting none = none
resolved_connecting (some addresses) = first_connecting addresses

-- What is known after the loop over the addresses, of which `first` is the first that can be connected
-- to.
abbrev Tried :
    Option Address → WatcherCmdQ → WatcherCmdQ × Option SockObj × Bool × List Call → Type 0
Tried first q (q', made, failed, calls) =
    (first ≡ none) × (made ≡ none) × (q' ≡ q) × (closes calls ≡ opens calls)
    ⊎ ((a : Address) × (fd : ℕ) × (first ≡ some a)
        × (a.socket ≡ some fd)
        × (made ≡ some (new_sockobj a fd))
        × (opens calls ≡ closes calls ++ fd ∷ [])
        × (q' ≡ (watcher_cmd_q_put q iot_cmd_io_thread_establish a.place).0))

naming-Descriptors : (a : Address) → Descriptors (naming a) [] []
unfolding opens closes
naming-Descriptors a = ground arith

-- Calls that close what they open keep it.
before-Tried :
    {one : Option Address} (q q' : WatcherCmdQ) (made : Option SockObj) (failed failed' : Bool)
    (first calls : List Call) (fds : List ℕ)
    → Descriptors first fds fds
    → Tried one q (q', made, failed, calls)
    → Tried one q (q', made, failed', first ++ calls)
before-Tried q q' made failed failed' first calls fds d (inl (n, m, e, c)) = inl (
  n,
  m,
  e,
  closes-append first calls
      ∙ ap₂ ◌++◌ d.closing c
      ∙ sym (opens-append first calls ∙ ap (λ l. l ++ opens calls) d.opening),
)
before-Tried q q' made failed failed' first calls fds d (inr (a, fd, n, k, m, o, e)) = inr (
  a,
  fd,
  n,
  k,
  m,
  opens-append first calls
      ∙ ap₂ ◌++◌ d.opening o
      ∙ sym (append_assoc fds (closes calls) (fd ∷ []))
      ∙ ap (λ l. l ++ fd ∷ [])
          (sym (closes-append first calls ∙ ap (λ l. l ++ closes calls) d.closing)),
  e,
)

after-Tried :
    {one : Option Address} (q q' : WatcherCmdQ) (made : Option SockObj) (failed : Bool)
    (calls last : List Call)
    → Descriptors last [] []
    → Tried one q (q', made, failed, calls)
    → Tried one q (q', made, failed, calls ++ last)
after-Tried q q' made failed calls last d (inl (n, m, e, c)) = inl (
  n,
  m,
  e,
  closes-append calls last
      ∙ ap₂ ◌++◌ c d.closing
      ∙ sym (opens-append calls last ∙ ap (λ l. opens calls ++ l) d.opening),
)
after-Tried q q' made failed calls last d (inr (a, fd, n, k, m, o, e)) =
    let none_closed : closes (calls ++ last) ≡ closes calls =
      closes-append calls last
      ∙ ap (λ l. closes calls ++ l) d.closing
      ∙ append-nil (closes calls) in
    inr (
      a,
      fd,
      n,
      k,
      m,
      opens-append calls last
          ∙ ap (λ l. opens calls ++ l) d.opening
          ∙ append-nil (opens calls)
          ∙ o
          ∙ ap (λ l. l ++ fd ∷ []) (sym none_closed),
      e,
    )

closing_again :
    {one : Option Address} (q q' : WatcherCmdQ) (made : Option SockObj) (failed : Bool)
    (name last calls : List Call) (fd : ℕ)
    → Descriptors name [] []
    → Descriptors last [] (fd ∷ [])
    → Tried one q (q', made, failed, calls)
    → Tried one q (q', made, true, (name ++ opened fd ∷ set_option fd ∷ []) ++ (last ++ calls))
unfolding opens closes
closing_again {one = c} q q' made failed name last calls fd n l h =
    let first = name ++ opened fd ∷ set_option fd ∷ [] in
    let opening : Descriptors (opened fd ∷ set_option fd ∷ []) (fd ∷ []) [] = record {
      opening = refl;
      closing = refl;
    } in
    subst (λ cs. Tried c q (q', made, true, cs)) (append_assoc first last calls)
      (before-Tried q q' made failed true (first ++ last) calls (fd ∷ [])
        (Descriptors-append (Descriptors-append n opening) l) h)

established :
    (name put : List Call) (fd : ℕ)
    → Descriptors name [] []
    → Descriptors put [] []
    → Descriptors
        ((name ++ opened fd ∷ set_option fd ∷ []) ++ connect fd ∷ malloc ∷ io_init fd ∷ put)
        (fd ∷ [])
        []
unfolding opens closes
established name put fd n p =
    Descriptors-append (Descriptors-append n record { opening = refl; closing = refl })
      record { opening = p.opening; closing = p.closing }

try_addresses-Tried :
    (q : WatcherCmdQ) (addresses : List Address)
    → Tried (first_connecting addresses) q (try_addresses q addresses)
unfolding try_addresses opens closes
try_addresses-Tried q [] = inl (refl, refl, refl, refl)
try_addresses-Tried q (a ∷ more) =
    let later = try_addresses-Tried q more in
    let (q', made, failed, calls) = try_addresses q more in
    elim (Option-cases a.socket) [
      | inl no_socket ↦
          rw no_socket
            (before-Tried q q' made failed true (naming a) calls [] (naming-Descriptors a) later)
      | inr (fd, e) ↦ elim (Bool-cases a.option_set) [
        | inr o ↦
            rw (e, o)
              ((closing_again q q' made failed (naming a) (close fd ∷ []) calls fd
                (naming-Descriptors a) record { opening = refl; closing = refl } later))
        | inl o ↦ elim (Bool-cases a.succeeds) [
          | inr c ↦
              rw (e, o, c)
                (closing_again q q' made failed (naming a) (connect fd ∷ close fd ∷ []) calls fd
                  (naming-Descriptors a) record { opening = refl; closing = refl } later)
          | inl c ↦
              let can : can_connect a ≡ true = rw (e, o, c) refl in
              let put = watcher_cmd_q_put q iot_cmd_io_thread_establish a.place in
              let calls' =
                (naming a ++ opened fd ∷ set_option fd ∷ [])
                ++ connect fd ∷ malloc ∷ io_init fd ∷ put.2 in
              let tried : try_addresses q (a ∷ more)
                  ≡ (put.0, some (new_sockobj a fd), false, calls') =
                rw (e, o, c) refl in
              let d =
                established (naming a) put.2 fd (naming-Descriptors a)
                  (put-Descriptors q iot_cmd_io_thread_establish a.place) in
              subst (Tried (first_connecting (a ∷ more)) q) (sym tried) (
                inr (
                  a,
                  fd,
                  ap (λ b. if b then some a else first_connecting more) can,
                  e,
                  refl,
                  d.opening ∙ ap (λ l. l ++ fd ∷ []) (sym d.closing),
                  refl,
                ))
        ]
      ]
    ]

-- A connection attempt leaves at most one descriptor open. Where the name is not resolved, or no
-- address can be connected to, all that were opened are closed, nothing is made, and the queue stays
-- as it was. Else the descriptor opened last, for the first address that can be connected to, stays
-- open, in the object that is made for that address; all others are closed, and one ESTABLISH command
-- for the object is put.
pub connect-descriptors :
    (q : WatcherCmdQ) (resolved : Option (List Address))
    → let (q', made, calls) = io_thread_connect q resolved in
      ((resolved_connecting resolved ≡ none)
          × (made ≡ none)
          × (q' ≡ q)
          × (closes calls ≡ opens calls)
        ⊎ ((a : Address) × (fd : ℕ) × (resolved_connecting resolved ≡ some a)
            × (a.socket ≡ some fd)
            × (made ≡ some (new_sockobj a fd))
            × (opens calls ≡ closes calls ++ fd ∷ [])
            × (q' ≡ (watcher_cmd_q_put q iot_cmd_io_thread_establish a.place).0)))
unfolding io_thread_connect opens closes
connect-descriptors q none = inl (refl, refl, refl, refl)
connect-descriptors q (some addresses) =
    let (q', made, failed, calls) = try_addresses q addresses in
    let last = (if failed then log ∷ [] else []) ++ resolved_free ∷ [] in
    after-Tried q q' made failed calls last freed (try_addresses-Tried q addresses)
  where
    freed :
        Descriptors
          ((if (try_addresses q addresses).2 then log ∷ [] else []) ++ resolved_free ∷ [])
          []
          []
    freed = ground arith

-- Where an earlier address fails and a later one can be connected to, an error is logged all the
-- same. (The names of the addresses are found.)
pub connect-logs_error :
    (q : WatcherCmdQ) (a b : Address) (fd : ℕ) (more : List Address)
    → a.named ≡ true
    → b.named ≡ true
    → a.socket ≡ none
    → b.socket ≡ some fd
    → b.option_set ≡ true
    → b.succeeds ≡ true
    → let (q', made, calls) = io_thread_connect q (some (a ∷ b ∷ more)) in
      (made ≡ some (new_sockobj b fd)) × (count is_log calls ≡ 1)
unfolding io_thread_connect try_addresses count is_log
connect-logs_error q a b fd more na nb sa sb ob cb =
    rw (sa, sb, ob, cb, na, nb)
      (let put = (watcher_cmd_q_put q iot_cmd_io_thread_establish b.place).2 in
        let split = count-append is_log put (log ∷ resolved_free ∷ []) in
        (refl, omega (arith, split, put-logs_nothing q iot_cmd_io_thread_establish b.place)))
