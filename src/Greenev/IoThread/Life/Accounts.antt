-- ===== src/Greenev/IoThread/Life/Accounts.antt =====
-- What the handlers of the I/O thread of greenev/iothread.c do with descriptors and their watchers,
-- counted for one descriptor.
use striga2_pocs.Base.{
  ℕ, ◌+◌, ◌≡◌, refl, ap, Bool, true, some, List, [], ◌∷◌, ◌++◌, map, arith, ◌==◌, if◌then◌else◌,
}
use striga2_pocs.Calls.{
  Call, io_stop, close, free, opens, closes, opens-append, closes-append, count, count-append,
  is_keeping, is_letting_go, is_io_start, is_io_stop,
}
use striga2_pocs.Greenev.IoThread.{
  SockObj, IoThread, close_sockets, iot_cmd_io_thread_listen, iot_cmd_io_thread_establish,
}
use striga2_pocs.Greenev.IoThread.Life.{IoEvent, command, accepting, ready}

-- How often a descriptor stands in a list.
unfoldable pub times : ℕ → List ℕ → ℕ
times fd [] = 0
times fd (x ∷ xs) = (if fd == x then 1 else 0) + times fd xs

pub times-append : (fd : ℕ) (xs ys : List ℕ) → times fd (xs ++ ys) ≡ times fd xs + times fd ys
unfolding times
times-append fd [] ys = omega arith
times-append fd (x ∷ xs) ys = omega (arith, times-append fd xs ys)

abbrev pub fds : List SockObj → List ℕ
fds = map (λ s. s.fd)

-- The descriptors of the two lists.
abbrev pub held : IoThread → List ℕ
held this = fds this.listening ++ fds this.established

-- The descriptors that the commands of other threads bring.
unfoldable pub brought : (ℕ → SockObj) → List IoEvent → List ℕ
brought memory [] = []
brought memory (command cmd ∷ es) =
    if cmd.id == iot_cmd_io_thread_listen
    then (memory cmd.arg).fd ∷ brought memory es
    else (if cmd.id == iot_cmd_io_thread_establish
        then (memory cmd.arg).fd ∷ brought memory es
        else brought memory es)
brought memory (accepting l is_error is_read client has_app address ∷ es) = brought memory es
brought memory (ready s is_read size ∷ es) = brought memory es

-- The account of a descriptor: the times it is opened here or brought, and the times it was held
-- before, come to the times it is closed, and it is held after; likewise the starts and stops of its
-- watcher. `unrefs` is how often the loop is let go.
pub record Account (fd : ℕ) (this this' : IoThread) (bringing : List ℕ) (unrefs : ℕ)
    (calls : List Call) : Type 0 where
  pub descriptors :
      times fd (opens calls) + times fd bringing + times fd (held this)
      ≡ times fd (closes calls) + times fd (held this')
  pub watchers :
      count (is_io_start fd) calls + times fd (held this)
      ≡ count (is_io_stop fd) calls + times fd (held this')
  pub keeping : count is_keeping calls ≡ 0
  pub letting_go : count is_letting_go calls ≡ unrefs

pub Account-append :
    {fd : ℕ} {this this' this'' : IoThread} {b b' : List ℕ} {u u' : ℕ} {cs ds : List Call}
    → Account fd this this' b u cs
    → Account fd this' this'' b' u' ds
    → Account fd this this'' (b ++ b') (u + u') (cs ++ ds)
Account-append {fd} {b} {b'} {cs} {ds} a c = record {
  descriptors = omega (
    arith,
    a.descriptors,
    c.descriptors,
    ap (times fd) (opens-append cs ds),
    ap (times fd) (closes-append cs ds),
    times-append fd (opens cs) (opens ds),
    times-append fd (closes cs) (closes ds),
    times-append fd b b',
  );
  watchers = omega (
    arith,
    a.watchers,
    c.watchers,
    count-append (is_io_start fd) cs ds,
    count-append (is_io_stop fd) cs ds,
  );
  keeping = omega (arith, a.keeping, c.keeping, count-append is_keeping cs ds);
  letting_go = omega (arith, a.letting_go, c.letting_go, count-append is_letting_go cs ds);
}

-- What a trace does that closes the sockets of a list, counted for one descriptor.
pub record Closing (fd : ℕ) (xs : List SockObj) (calls : List Call) : Type 0 where
  pub opening : opens calls ≡ []
  pub closing : times fd (closes calls) ≡ times fd (fds xs)
  pub starting : count (is_io_start fd) calls ≡ 0
  pub stopping : count (is_io_stop fd) calls ≡ times fd (fds xs)
  pub keeping : count is_keeping calls ≡ 0
  pub letting_go : count is_letting_go calls ≡ 0

-- A loop of DIE, where freed memory keeps what it was.
pub close_sockets-Closing :
    (intact : ℕ → Bool) (xs : List SockObj)
    → ((address : ℕ) → intact address ≡ true)
    → (calls : List Call) × (close_sockets intact xs ≡ some calls)
      × ((fd : ℕ) → Closing fd xs calls)
unfolding close_sockets opens closes times count is_io_start is_io_stop is_keeping is_letting_go
close_sockets-Closing intact [] h = (
  [],
  refl,
  λ fd. record {
    opening = refl;
    closing = refl;
    starting = refl;
    stopping = refl;
    keeping = refl;
    letting_go = refl;
  },
)
close_sockets-Closing intact (s ∷ more) h =
    let (calls, e, c) = close_sockets-Closing intact more h in
    (
      close s.fd ∷ io_stop s.fd ∷ free ∷ calls,
      rw (h s.address, e, close_sockets) refl,
      λ fd. record {
        opening = (c fd).opening;
        closing = omega (arith, (c fd).closing);
        starting = omega (arith, (c fd).starting);
        stopping = omega (arith, (c fd).stopping);
        keeping = omega (arith, (c fd).keeping);
        letting_go = omega (arith, (c fd).letting_go);
      },
    )
