-- ===== src/Pyglev/ListenCmd/Opening.antt =====
-- What it takes to open the listening sockets of pyglev/pyglev/core/lstncmd.c, and what that does with
-- descriptors and the interpreter lock.
use striga2_pocs.Base.{
  ℕ, ◌≡◌, refl, sym, ◌∙◌, ap, ap₂, inl, inr, Bool, true, false, Option, none, some, List, [], ◌∷◌,
  ◌++◌, map, length, arith, Bool-cases, ◌&&◌,
}
use striga2_pocs.Calls.{
  Call, gil_after, gil_after-append, opens, closes, opens-append, closes-append, close, resolve,
  resolved_free, malloc,
}
use striga2_pocs.Pyglev.Errors.{ErrorType, event_loop_error}
use striga2_pocs.Pyglev.ListenCmd.{
  Address, Reporter, report, open_socket, open_sockets, to_list, start_watchers,
}

-- A trace that leaves the interpreter lock free, opens the given descriptors and closes others.
pub record Effect (calls : List Call) (opened closed_ : List ℕ) : Type 0 where
  pub unlocked : gil_after false calls ≡ some false
  pub opening : opens calls ≡ opened
  pub closing : closes calls ≡ closed_

pub Effect-append :
    {cs ds : List Call} {o c o' c' : List ℕ}
    → Effect cs o c
    → Effect ds o' c'
    → Effect (cs ++ ds) (o ++ o') (c ++ c')
Effect-append {cs} {ds} e f = record {
  unlocked = gil_after-append false false cs ds e.unlocked ∙ f.unlocked;
  opening = opens-append cs ds ∙ ap₂ ◌++◌ e.opening f.opening;
  closing = closes-append cs ds ∙ ap₂ ◌++◌ e.closing f.closing;
}

pub report-Effect : (r : Reporter) (type : ErrorType) → Effect (report r type) [] []
unfolding event_loop_error gil_after opens closes
report-Effect r type = ground arith

open_socket-Effect :
    (r : Reporter) (a : Address) → Effect (open_socket r a).2 (to_list (open_socket r a).0) []
unfolding open_socket event_loop_error gil_after opens closes
open_socket-Effect r a = ground arith

pub open_sockets-Effect :
    (r : Reporter) (more : List Address) → Effect (open_sockets r more).2 (open_sockets r more).0 []
unfolding open_sockets gil_after opens closes
open_sockets-Effect r [] = record { unlocked = refl; opening = refl; closing = refl }
open_sockets-Effect r (a ∷ more) = elim (Bool-cases (open_socket r a).1) [
  | inl e ↦ rw e (Effect-append (open_socket-Effect r a) (open_sockets-Effect r more))
  | inr e ↦ rw e (open_socket-Effect r a)
]

-- Whether the system lets a socket listen on an address.
abbrev can_listen : Address → Bool
can_listen a = elim a.socket [ none ↦ false | some fd ↦ a.option_set && a.bound && a.listened ]

pub all_listen : List Address → Bool
all_listen [] = true
all_listen (a ∷ more) = can_listen a && all_listen more

-- Whether the name is resolved, and a socket can listen on each address.
abbrev pub resolved_listen : Option (List Address) → Bool
resolved_listen none = false
resolved_listen (some addresses) = all_listen addresses

abbrev pub addresses_of : Option (List Address) → List Address
addresses_of none = []
addresses_of (some addresses) = addresses

open_socket-can_listen : (r : Reporter) (a : Address) → (open_socket r a).1 ≡ can_listen a
unfolding open_socket
open_socket-can_listen r a = ground arith

pub open_sockets-all_listen :
    (r : Reporter) (addresses : List Address) → (open_sockets r addresses).1 ≡ all_listen addresses
unfolding open_sockets all_listen
open_sockets-all_listen r [] = refl
open_sockets-all_listen r (a ∷ more) = elim (Bool-cases (open_socket r a).1) [
  | inl e ↦ rw (e, sym (open_socket-can_listen r a) ∙ e) (open_sockets-all_listen r more)
  | inr e ↦ rw (e, sym (open_socket-can_listen r a) ∙ e) refl
]

-- Where every turn succeeds there is a descriptor for each address.
pub length-open_sockets :
    (r : Reporter) (addresses : List Address)
    → (open_sockets r addresses).1 ≡ true
    → length (open_sockets r addresses).0 ≡ length addresses
unfolding open_sockets open_socket
length-open_sockets r [] h = refl
length-open_sockets r (a ∷ more) h = ground (arith, length-open_sockets r more)

pub start_watchers-Effect : (fds : List ℕ) → Effect (start_watchers fds) [] []
unfolding start_watchers gil_after opens closes
start_watchers-Effect [] = record { unlocked = refl; opening = refl; closing = refl }
start_watchers-Effect (fd ∷ fds) =
    let e = start_watchers-Effect fds in
    record { unlocked = e.unlocked; opening = e.opening; closing = e.closing }

pub close_all-Effect : (fds : List ℕ) → Effect (map close fds) [] fds
unfolding gil_after opens closes
close_all-Effect [] = record { unlocked = refl; opening = refl; closing = refl }
close_all-Effect (fd ∷ fds) =
    let e = close_all-Effect fds in
    record { unlocked = e.unlocked; opening = e.opening; closing = ap (◌∷◌ fd) e.closing }

pub resolve-Effect : Effect (resolve ∷ []) [] []
unfolding gil_after opens closes
resolve-Effect = record { unlocked = refl; opening = refl; closing = refl }

pub resolved_free-Effect : Effect (resolved_free ∷ []) [] []
unfolding gil_after opens closes
resolved_free-Effect = record { unlocked = refl; opening = refl; closing = refl }

pub malloc-Effect : Effect (malloc ∷ []) [] []
unfolding gil_after opens closes
malloc-Effect = record { unlocked = refl; opening = refl; closing = refl }
