-- ===== src/Greenev/IoThread/Life/Events.antt =====
-- The events of the I/O thread of greenev/iothread.c one by one: that each handler comes to an end, and
-- what it does with descriptors.
use striga2_pocs.Base.{
  ℕ, zero, suc, ◌+◌, ◌/◌, ◌≡◌, refl, sym, ap, subst, inl, inr, Bool, true, false, not, ◌&&◌, Option,
  none, some, List, [], ◌∷◌, ◌++◌, arith, leb, ltb, ◌==◌, Bool-cases, pos, negsuc,
}
use striga2_pocs.Calls.{
  Call, log, io_set, io_start, read, mutex_lock, mutex_unlock, opens, closes, count, is_keeping,
  is_letting_go, is_io_start, is_io_stop,
}
use striga2_pocs.Greenev.Cmd.{Cmd}
use striga2_pocs.Greenev.IoBuffer.{io_buffer_get, io_buffer_slot_size}
use striga2_pocs.Greenev.IoBuffer.Laws.{Fresh, io_buffer_get-Fresh, io_buffer_get-calls}
use striga2_pocs.Greenev.IoThread.{
  SockObj, IoThread, ended, on_iot_cmd, on_io_thread_accept, on_io_thread_readwrite,
  iot_cmd_io_thread_die, iot_cmd_io_thread_listen, iot_cmd_io_thread_establish,
}
use striga2_pocs.Greenev.IoThread.Life.{IoEvent, command, accepting, ready, on_io_event}
use striga2_pocs.Greenev.IoThread.Life.Accounts.{times, times-append, held, fds, brought, Account}

-- The events for which the thread goes on: all but the command DIE, and of the reads only those that
-- fill more than three slots.
unfoldable pub goes_on : IoEvent → Bool
goes_on (command cmd) = not (cmd.id == iot_cmd_io_thread_die)
goes_on (accepting l is_error is_read client has_app address) = true
goes_on (ready s false size) = true
goes_on (ready s true (pos zero)) = false
goes_on (ready s true (pos (suc n))) = leb 49152 n && ltb n 65536
goes_on (ready s true (negsuc n)) = false

unfoldable pub all_go_on : List IoEvent → Bool
unfolding goes_on
all_go_on [] = true
all_go_on (e ∷ es) = goes_on e && all_go_on es

pub command-Account :
    (memory : ℕ → SockObj) (intact : ℕ → Bool) (this : IoThread) (cmd : Cmd)
    → (cmd.id == iot_cmd_io_thread_die) ≡ false
    → (this' : IoThread) × (calls : List Call) × (on_iot_cmd memory intact this cmd
        ≡ ended this' calls)
      × ((fd : ℕ) → Account fd this this' (brought memory (command cmd ∷ [])) 0 calls)
      × (this'.tmp_io_buf ≡ this.tmp_io_buf)
      × (this'.cmd_q ≡ this.cmd_q)
unfolding on_iot_cmd brought opens closes times count is_io_start is_io_stop is_keeping
    is_letting_go
command-Account memory intact this cmd d = elim (Bool-cases (cmd.id == iot_cmd_io_thread_listen)) [
  | inl e ↦
      let s = memory cmd.arg in
      (
        record this { listening = s ∷ this.listening },
        io_start s.fd ∷ [],
        rw (on_iot_cmd, d, e) refl,
        λ fd. record {
          descriptors = rw e (omega arith);
          watchers = omega arith;
          keeping = refl;
          letting_go = refl;
        },
        refl,
        refl,
      )
  | inr e ↦ elim (Bool-cases (cmd.id == iot_cmd_io_thread_establish)) [
    | inl g ↦
        let s = memory cmd.arg in
        let before : (fd : ℕ)
            → times fd (held this)
              ≡ times fd (fds this.listening) + times fd (fds this.established) =
          λ fd. times-append fd (fds this.listening) (fds this.established) in
        let after : (fd : ℕ)
            → times fd (fds this.listening ++ (s.fd ∷ fds this.established))
              ≡ times fd (fds this.listening) + times fd (s.fd ∷ fds this.established) =
          λ fd. times-append fd (fds this.listening) (s.fd ∷ fds this.established) in
        (
          record this { established = s ∷ this.established },
          io_set s.fd ∷ io_start s.fd ∷ [],
          rw (on_iot_cmd, d, e, g) refl,
          λ fd. record {
            descriptors = rw (e, g) (omega (arith, before fd, after fd));
            watchers = omega (arith, before fd, after fd);
            keeping = refl;
            letting_go = refl;
          },
          refl,
          refl,
        )
    | inr g ↦ (
      this,
      log ∷ [],
      rw (on_iot_cmd, d, e, g) refl,
      λ fd. record {
        descriptors = rw (e, g) (omega arith);
        watchers = omega arith;
        keeping = refl;
        letting_go = refl;
      },
      refl,
      refl,
    )
  ]
]

-- Calls that have nothing to do with descriptors and watchers.
pub nothing-Account :
    (fd : ℕ) (this this' : IoThread) (calls : List Call)
    → held this' ≡ held this
    → opens calls ≡ []
    → closes calls ≡ []
    → count (is_io_start fd) calls ≡ 0
    → count (is_io_stop fd) calls ≡ 0
    → count is_keeping calls ≡ 0
    → count is_letting_go calls ≡ 0
    → Account fd this this' [] 0 calls
unfolding times
nothing-Account fd this this' calls same o c st sp k l = record {
  descriptors = omega (arith, ap (times fd) same, ap (times fd) o, ap (times fd) c);
  watchers = omega (arith, ap (times fd) same, st, sp);
  keeping = k;
  letting_go = l;
}

pub accept-Account :
    (fd : ℕ) (this : IoThread) (l : SockObj) (is_error is_read : Bool) (client : Option (ℕ × ℕ))
    (has_app : Bool) (address : ℕ)
    → let (this', calls) = on_io_thread_accept this l is_error is_read client has_app address in
      Account fd this this' [] 0 calls × (this'.tmp_io_buf ≡ this.tmp_io_buf)
unfolding on_io_thread_accept opens closes times count is_io_start is_io_stop is_keeping
    is_letting_go
accept-Account fd this l true r c a address =
    (nothing-Account fd this this (log ∷ []) refl refl refl refl refl refl refl, refl)
accept-Account fd this l false false c a address =
    (nothing-Account fd this this [] refl refl refl refl refl refl refl, refl)
accept-Account fd this l false true none a address =
    (nothing-Account fd this this (log ∷ []) refl refl refl refl refl refl refl, refl)
accept-Account fd this l false true (some (client, peer)) false address = (
  record { descriptors = omega arith; watchers = omega arith; keeping = refl; letting_go = refl },
  refl,
)
accept-Account fd this l false true (some (client, peer)) true address =
    let before = times-append fd (fds this.listening) (fds this.established) in
    let after = times-append fd (fds this.listening) (client ∷ fds this.established) in
    (
      record {
        descriptors = omega (arith, before, after);
        watchers = omega (arith, before, after);
        keeping = refl;
        letting_go = refl;
      },
      refl,
    )

full_read-Account :
    (this : IoThread) (s : SockObj) (n slot_count start : ℕ)
    → Fresh this.tmp_io_buf slot_count start
    → (leb 49152 n && ltb n 65536) ≡ true
    → (this' : IoThread) × (calls : List Call) × (on_io_thread_readwrite this s true (pos (suc n))
        ≡ ended this' calls)
      × ((fd : ℕ) → Account fd this this' [] 0 calls)
      × Fresh this'.tmp_io_buf slot_count start
unfolding on_io_thread_readwrite opens closes count is_io_start is_io_stop is_keeping is_letting_go
full_read-Account this s n slot_count start f h =
    let (f', got, _) = io_buffer_get-Fresh this.tmp_io_buf slot_count start 4 f in
    let used = 1 + n / io_buffer_slot_size in
    let all_filled : (used == 4) ≡ true = ground arith in
    let (buf, _, _, _) = io_buffer_get this.tmp_io_buf 4 in
    let calls = mutex_lock ∷ mutex_unlock ∷ read s.fd ∷ log ∷ [] in
    (
      record this { tmp_io_buf = buf },
      calls,
      rw (got, all_filled, io_buffer_get-calls this.tmp_io_buf 4) refl,
      λ fd.
          nothing-Account fd this (record this { tmp_io_buf = buf }) calls refl refl refl refl refl
            refl refl,
      f',
    )

-- One event.
pub event-Account :
    (memory : ℕ → SockObj) (intact : ℕ → Bool) (this : IoThread) (e : IoEvent)
    (slot_count start : ℕ)
    → Fresh this.tmp_io_buf slot_count start
    → goes_on e ≡ true
    → (this' : IoThread) × (calls : List Call) × (on_io_event memory intact this e
        ≡ ended this' calls)
      × ((fd : ℕ) → Account fd this this' (brought memory (e ∷ [])) 0 calls)
      × Fresh this'.tmp_io_buf slot_count start
unfolding on_io_event goes_on brought on_io_thread_readwrite opens closes count is_io_start
    is_io_stop is_keeping is_letting_go
event-Account memory intact this (command cmd) slot_count start f h =
    let (this', calls, e, a, same, _) =
      command-Account memory intact this cmd (ground (arith, h)) in
    (this', calls, e, a, subst (λ b. Fresh b slot_count start) (sym same) f)
event-Account memory intact this (accepting l is_error is_read client has_app address) slot_count
      start f h =
    (
      _,
      _,
      refl,
      λ fd. (accept-Account fd this l is_error is_read client has_app address).0,
      subst (λ b. Fresh b slot_count start)
          (sym (accept-Account 0 this l is_error is_read client has_app address).1) f,
    )
event-Account memory intact this (ready s false size) slot_count start f h =
    (this, [], refl, λ fd. nothing-Account fd this this [] refl refl refl refl refl refl refl, f)
event-Account memory intact this (ready s true (pos zero)) slot_count start f h =
    absurd (ground (arith, h))
event-Account memory intact this (ready s true (pos (suc n))) slot_count start f h =
    full_read-Account this s n slot_count start f h
event-Account memory intact this (ready s true (negsuc n)) slot_count start f h =
    absurd (ground (arith, h))

pub brought-cons :
    (memory : ℕ → SockObj) (e : IoEvent) (es : List IoEvent)
    → brought memory (e ∷ es) ≡ brought memory (e ∷ []) ++ brought memory es
unfolding brought
brought-cons memory (command cmd) es = ground arith
brought-cons memory (accepting l is_error is_read client has_app address) es = refl
brought-cons memory (ready s is_read size) es = refl
