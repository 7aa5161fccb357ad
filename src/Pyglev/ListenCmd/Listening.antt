-- ===== src/Pyglev/ListenCmd/Listening.antt =====
-- The descriptors and the interpreter lock on the way from a new listen command of
-- pyglev/pyglev/core/lstncmd.c to a closed one.
use striga2_pocs.Base.{
  ℕ, ◌≡◌, ◌≢◌, refl, sym, ◌∙◌, ap, ap₂, ◌⊎◌, inl, inr, Bool, true, false, Option, none, some, List,
  [], ◌∷◌, ◌++◌, append-nil, length, arith, Bool-cases,
}
use striga2_pocs.Calls.{gil_after, opens, closes, closes-append}
use striga2_pocs.Pyglev.Errors.{ErrorType}
use striga2_pocs.Pyglev.ListenCmd.{
  ListenCmd, Status, init, resolving, listening, closed, Address, Reporter, open_sockets,
  stop_watchers, listen_cmd_xschedule_01, listen_cmd_close,
}
use striga2_pocs.Pyglev.ListenCmd.Opening.{
  Effect-append, report-Effect, open_sockets-Effect, open_sockets-all_listen, length-open_sockets,
  start_watchers-Effect, close_all-Effect, resolve-Effect, resolved_free-Effect, malloc-Effect,
  resolved_listen, addresses_of,
}

-- The first step of a listen command leaves the interpreter lock free, and comes to one of two
-- ends. If the name is resolved and a socket can listen on each address, the command is listening,
-- on as many watchers as there are addresses, which are exactly the descriptors opened, and none is
-- closed. Else the command stays in the state RESOLVING with the watchers that it had, and every
-- descriptor opened is closed.
pub xschedule_01-descriptors :
    (self : ListenCmd) (r : Reporter) (resolved : Option (List Address))
    → let (self', calls) = listen_cmd_xschedule_01 self r resolved in
      (gil_after false calls ≡ some false)
      × ((resolved_listen resolved ≡ true)
            × (self'.status ≡ listening)
            × (self'.watchers ≡ some (opens calls))
            × (self'.watchers_count ≡ length (addresses_of resolved))
            × (length (opens calls) ≡ length (addresses_of resolved))
            × (closes calls ≡ [])
          ⊎ (resolved_listen resolved ≡ false)
            × (self'.status ≡ resolving)
            × (self'.watchers ≡ self.watchers)
            × (closes calls ≡ opens calls))
unfolding listen_cmd_xschedule_01
xschedule_01-descriptors self r none =
    let e = Effect-append resolve-Effect (report-Effect r ErrorType.eai) in
    (e.unlocked, inr (refl, refl, refl, e.closing ∙ sym e.opening))
xschedule_01-descriptors self r (some addresses) =
    let opened = open_sockets-Effect r addresses in
    let as_told = sym (open_sockets-all_listen r addresses) in
    elim (Bool-cases (open_sockets r addresses).1) [
      | inl done ↦
          let e = Effect-append resolve-Effect (
            Effect-append opened (
              Effect-append malloc-Effect (
                Effect-append (start_watchers-Effect (open_sockets r addresses).0)
                  resolved_free-Effect))) in
          let all_opened = e.opening ∙ append-nil (open_sockets r addresses).0 in
          rw done (
            e.unlocked,
            inl (
              as_told ∙ done,
              refl,
              ap some (sym all_opened),
              refl,
              ap length all_opened ∙ length-open_sockets r addresses done,
              e.closing,
            ),
          )
      | inr failed ↦
          let e = Effect-append resolve-Effect (
            Effect-append opened (
              Effect-append resolved_free-Effect
                (close_all-Effect (open_sockets r addresses).0))) in
          rw failed (
            e.unlocked,
            inr (
              as_told ∙ failed,
              refl,
              refl,
              e.closing ∙ sym (e.opening ∙ append-nil (open_sockets r addresses).0),
            ),
          )
    ]

stop_watchers-closes : (fds : List ℕ) (errors : ℕ → Bool) → closes (stop_watchers fds errors) ≡ fds
unfolding stop_watchers closes
stop_watchers-closes [] errors = refl
stop_watchers-closes (fd ∷ fds) errors = elim (Bool-cases (errors fd)) [
  | inl e ↦ rw e (ap (◌∷◌ fd) (stop_watchers-closes fds errors))
  | inr e ↦ rw e (ap (◌∷◌ fd) (stop_watchers-closes fds errors))
]

close-listening :
    (self : ListenCmd) (fds : List ℕ) (errors : ℕ → Bool)
    → self.status ≡ listening
    → self.watchers ≡ some fds
    → ((listen_cmd_close self errors).0.status ≡ closed)
      × (closes (listen_cmd_close self errors).1 ≡ fds)
unfolding listen_cmd_close
close-listening self fds errors s w = ground (arith, stop_watchers-closes fds errors)

close-resolving :
    (self : ListenCmd) (errors : ℕ → Bool)
    → self.status ≡ resolving
    → ((listen_cmd_close self errors).0.status ≡ closed)
      × (closes (listen_cmd_close self errors).1 ≡ [])
unfolding listen_cmd_close closes
close-resolving self errors s = ground arith

-- A command that is started and then closed has closed every descriptor that it opened, each
-- once, and is in the state CLOSED, whether or not it ever listened and whatever `close` answers.
pub close-xschedule_01 :
    (self : ListenCmd) (r : Reporter) (resolved : Option (List Address)) (errors : ℕ → Bool)
    → let (self', calls) = listen_cmd_xschedule_01 self r resolved in
      let (self'', more) = listen_cmd_close self' errors in
      (self''.status ≡ closed) × (closes (calls ++ more) ≡ opens calls)
close-xschedule_01 self r resolved errors =
    let (self', calls) = listen_cmd_xschedule_01 self r resolved in
    elim (xschedule_01-descriptors self r resolved).1 [
      | inl (_, s, w, _, _, c) ↦
          let (s', c') = close-listening self' (opens calls) errors s w in
          (s', closes-append calls (listen_cmd_close self' errors).1 ∙ ap₂ ◌++◌ c c')
      | inr (_, s, _, c) ↦
          let (s', c') = close-resolving self' errors s in
          (
            s',
            closes-append calls (listen_cmd_close self' errors).1
                ∙ ap₂ ◌++◌ c c'
                ∙ append-nil (opens calls),
          )
    ]

-- Closing a command that listened a second time closes the same descriptors again.
pub close-close :
    (self : ListenCmd) (fds : List ℕ) (errors errors' : ℕ → Bool)
    → self.status ≡ listening
    → self.watchers ≡ some fds
    → let (self', calls) = listen_cmd_close self errors in
      (closes calls ≡ fds) × (closes (listen_cmd_close self' errors').1 ≡ fds)
unfolding listen_cmd_close closes
close-close self fds errors errors' s w =
    ground (arith, stop_watchers-closes fds errors, stop_watchers-closes fds errors')

-- The descriptors that a command which is not closed yet holds.
pub held : ListenCmd → List ℕ
held self = elim self.status [
  | Status.listening ↦ elim self.watchers [ none ↦ [] | some fds ↦ fds ]
  | _ ↦ []
]

stop_watchers-gil :
    (fds : List ℕ) (errors : ℕ → Bool) → gil_after true (stop_watchers fds errors) ≡ some true
unfolding stop_watchers gil_after
stop_watchers-gil [] errors = refl
stop_watchers-gil (fd ∷ fds) errors = elim (Bool-cases (errors fd)) [
  | inl e ↦ rw e (stop_watchers-gil fds errors)
  | inr e ↦ rw e (stop_watchers-gil fds errors)
]

close_gil-cases :
    (self : ListenCmd) (errors : ℕ → Bool) (s : Status) (w : Option (List ℕ))
    → self.status ≡ s
    → self.watchers ≡ w
    → gil_after true (listen_cmd_close self errors).1 ≡ some true
unfolding listen_cmd_close gil_after
close_gil-cases self errors init w e f = ground arith
close_gil-cases self errors resolving w e f = ground arith
close_gil-cases self errors listening none e f = ground arith
close_gil-cases self errors listening (some fds) e f = ground (arith, stop_watchers-gil fds errors)
close_gil-cases self errors closed none e f = ground arith
close_gil-cases self errors closed (some fds) e f = ground (arith, stop_watchers-gil fds errors)

-- A close uses nothing of the interpreter, whatever the status.
pub close-gil :
    (self : ListenCmd) (errors : ℕ → Bool)
    → gil_after true (listen_cmd_close self errors).1 ≡ some true
close-gil self errors = close_gil-cases self errors self.status self.watchers refl refl

close-cases :
    (self : ListenCmd) (errors : ℕ → Bool) (s : Status) (w : Option (List ℕ))
    → self.status ≡ s
    → self.watchers ≡ w
    → s ≢ closed
    → ((listen_cmd_close self errors).0.status ≡ closed)
      × ((listen_cmd_close self errors).0.next ≡ self.next)
      × (closes (listen_cmd_close self errors).1 ≡ held self)
      × (gil_after true (listen_cmd_close self errors).1 ≡ some true)
unfolding listen_cmd_close held closes gil_after
close-cases self errors init w e f h = ground arith
close-cases self errors resolving w e f h = ground arith
close-cases self errors listening none e f h = ground arith
close-cases self errors listening (some fds) e f h =
    ground (arith, stop_watchers-closes fds errors, stop_watchers-gil fds errors)
close-cases self errors closed w e f h = absurd (h refl)

-- Closing an open command, with the interpreter lock held.
pub listen_cmd_close-effect :
    (self : ListenCmd) (errors : ℕ → Bool)
    → self.status ≢ closed
    → ((listen_cmd_close self errors).0.status ≡ closed)
      × ((listen_cmd_close self errors).0.next ≡ self.next)
      × (closes (listen_cmd_close self errors).1 ≡ held self)
      × (gil_after true (listen_cmd_close self errors).1 ≡ some true)
listen_cmd_close-effect self errors h =
    close-cases self errors self.status self.watchers refl refl h

pub next-close :
    (self : ListenCmd) (errors : ℕ → Bool) → (listen_cmd_close self errors).0.next ≡ self.next
unfolding listen_cmd_close
next-close self errors = ground arith

pub next-xschedule_01 :
    (self : ListenCmd) (r : Reporter) (resolved : Option (List Address))
    → (listen_cmd_xschedule_01 self r resolved).0.next ≡ self.next
unfolding listen_cmd_xschedule_01
next-xschedule_01 self r resolved = ground arith
