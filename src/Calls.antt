-- ===== src/Calls.antt =====
-- The calls that the programs make into pthreads, libev, libc and CPython, as a trace. The code of
-- these libraries is not part of the repository: a model function returns the list of the calls
-- that it makes, in order, and takes as arguments what the calls answer.
use striga2_pocs.Base.{
  ℕ, ◌+◌, ◌==◌, if◌then◌else◌, Bool, true, false, Option, none, some, List, [], ◌∷◌, ◌++◌, ◌≡◌,
  refl, sym, ap, ap₂, ◌∙◌, map, append_assoc, arith, Option-cases, inl, inr,
}

pub data Call : Type 0 where
  -- pthreads; the number of a condition variable tells the two of a queue apart
  mutex_init mutex_destroy mutex_lock mutex_unlock : Call
  cond_init cond_destroy cond_signal cond_wait : ℕ → Call
  cond_timedwait : ℕ → ℕ → ℕ → Call
  -- libev; a watcher is named by a number, its descriptor or its place
  async_init async_start async_stop async_send loop_ref loop_unref : Call
  signal_init signal_start signal_stop : ℕ → Call
  io_init io_set io_start io_stop : ℕ → Call
  loop_new loop_destroy : Call
  -- threads
  thread_create thread_join : Call
  -- libc
  malloc free log : Call
  -- sockets; `opened` and `accepted` are calls that returned a new descriptor
  resolve resolved_free name_info : Call
  opened accepted set_option bind listen connect close read : ℕ → Call
  -- CPython; the numbers are objects, and `py_new` is a call that returns a new reference to one
  gil_restore gil_save : Call
  py_incref py_decref py_call : ℕ → Call
  py_new : ℕ → Call
  py_api : Call

-- An `assert` that fails ends the process.
pub data Outcome {ℓ} (A : Type ℓ) : Type ℓ where
  returns : A → Outcome A
  aborts : Outcome A

-- The descriptors that a trace opens, and those that it closes, in order.
unfoldable pub opens_of : Call → List ℕ
opens_of (Call.opened fd) = fd ∷ []
opens_of (Call.accepted fd) = fd ∷ []
opens_of c = []

unfoldable pub closes_of : Call → List ℕ
closes_of (Call.close fd) = fd ∷ []
closes_of c = []

unfoldable pub opens : List Call → List ℕ
unfolding opens_of
opens [] = []
opens (c ∷ cs) = opens_of c ++ opens cs

unfoldable pub closes : List Call → List ℕ
unfolding closes_of
closes [] = []
closes (c ∷ cs) = closes_of c ++ closes cs

pub opens-append : (cs ds : List Call) → opens (cs ++ ds) ≡ opens cs ++ opens ds
unfolding opens
opens-append [] ds = refl
opens-append (c ∷ cs) ds =
    rw (opens-append cs ds) (sym (append_assoc (opens_of c) (opens cs) (opens ds)))

pub closes-append : (cs ds : List Call) → closes (cs ++ ds) ≡ closes cs ++ closes ds
unfolding closes
closes-append [] ds = refl
closes-append (c ∷ cs) ds =
    rw (closes-append cs ds) (sym (append_assoc (closes_of c) (closes cs) (closes ds)))

-- How often a trace takes and drops a reference to an object, starts and stops the watcher of a
-- descriptor, and takes and frees memory.
unfoldable pub count : (Call → Bool) → List Call → ℕ
count p [] = 0
count p (c ∷ cs) = (if p c then 1 else 0) + count p cs

pub count-append :
    (p : Call → Bool) (cs ds : List Call) → count p (cs ++ ds) ≡ count p cs + count p ds
unfolding count
count-append p [] ds = omega arith
count-append p (c ∷ cs) ds = omega (arith, count-append p cs ds)

unfoldable pub is_incref : ℕ → Call → Bool
is_incref o (Call.py_incref p) = o == p
is_incref o c = false

unfoldable pub is_decref : ℕ → Call → Bool
is_decref o (Call.py_decref p) = o == p
is_decref o c = false

unfoldable pub is_new : ℕ → Call → Bool
is_new o (Call.py_new p) = o == p
is_new o c = false

unfoldable pub is_io_start : ℕ → Call → Bool
is_io_start fd (Call.io_start n) = fd == n
is_io_start fd c = false

unfoldable pub is_io_stop : ℕ → Call → Bool
is_io_stop fd (Call.io_stop n) = fd == n
is_io_stop fd c = false

unfoldable pub is_malloc : Call → Bool
is_malloc Call.malloc = true
is_malloc c = false

unfoldable pub is_log : Call → Bool
is_log Call.log = true
is_log c = false

unfoldable pub is_free : Call → Bool
is_free Call.free = true
is_free c = false

-- What a call does to a mutex that this thread holds or not; `none` is a lock of a mutex already
-- held, or an unlock of one that is not.
unfoldable pub mutex_step : Bool → Call → Option Bool
mutex_step false Call.mutex_lock = some true
mutex_step true Call.mutex_lock = none
mutex_step true Call.mutex_unlock = some false
mutex_step false Call.mutex_unlock = none
mutex_step b c = some b

-- The same for the interpreter lock; `none` is a second acquisition by the same thread, a release
-- of a lock that is not held, or a use of the interpreter without it.
unfoldable pub gil_step : Bool → Call → Option Bool
gil_step false Call.gil_restore = some true
gil_step true Call.gil_restore = none
gil_step true Call.gil_save = some false
gil_step false Call.gil_save = none
gil_step false (Call.py_incref o) = none
gil_step false (Call.py_decref o) = none
gil_step false (Call.py_new o) = none
gil_step false (Call.py_call o) = none
gil_step false Call.py_api = none
gil_step b c = some b

-- The same for a thread that must not wait with the interpreter lock held: `none` is also a lock of a
-- mutex, or a wait on a condition variable, while it holds that lock.
unfoldable pub blocking_step : Bool → Call → Option Bool
unfolding gil_step
blocking_step true Call.mutex_lock = none
blocking_step true (Call.cond_wait cond) = none
blocking_step true (Call.cond_timedwait cond s n) = none
blocking_step b c = gil_step b c

-- A whole trace.
unfoldable pub follow : (Bool → Call → Option Bool) → Bool → List Call → Option Bool
follow step b [] = some b
follow step b (c ∷ cs) = elim (step b c) [ none ↦ none | some b' ↦ follow step b' cs ]

unfoldable pub mutex_after : Bool → List Call → Option Bool
unfolding follow mutex_step
mutex_after = follow mutex_step

unfoldable pub gil_after : Bool → List Call → Option Bool
unfolding follow gil_step
gil_after = follow gil_step

unfoldable pub blocking_after : Bool → List Call → Option Bool
unfolding follow blocking_step
blocking_after = follow blocking_step

-- A trace may be followed in two parts.
follow-append :
    (step : Bool → Call → Option Bool) (b c : Bool) (cs ds : List Call)
    → follow step b cs ≡ some c
    → follow step b (cs ++ ds) ≡ follow step c ds
unfolding follow
follow-append step b c [] ds h = ground arith
follow-append step b c (d ∷ cs) ds h = elim (Option-cases (step b d)) [
  | inl e ↦ (let p = rw (e, follow) at h in cc)
  | inr (b', e) ↦ rw (e, follow) (follow-append step b' c cs ds (rw (e, follow) at h))
]

pub mutex_after-append :
    (b c : Bool) (cs ds : List Call)
    → mutex_after b cs ≡ some c
    → mutex_after b (cs ++ ds) ≡ mutex_after c ds
unfolding mutex_after
mutex_after-append = follow-append mutex_step

pub gil_after-append :
    (b c : Bool) (cs ds : List Call)
    → gil_after b cs ≡ some c
    → gil_after b (cs ++ ds) ≡ gil_after c ds
unfolding gil_after
gil_after-append = follow-append gil_step

pub blocking_after-append :
    (b c : Bool) (cs ds : List Call)
    → blocking_after b cs ≡ some c
    → blocking_after b (cs ++ ds) ≡ blocking_after c ds
unfolding blocking_after
blocking_after-append = follow-append blocking_step

-- A trace that opens the descriptors `o` and closes the descriptors `c`.
pub record Descriptors (calls : List Call) (o c : List ℕ) : Type 0 where
  pub opening : opens calls ≡ o
  pub closing : closes calls ≡ c

pub Descriptors-append :
    {cs ds : List Call} {o c o' c' : List ℕ}
    → Descriptors cs o c
    → Descriptors ds o' c'
    → Descriptors (cs ++ ds) (o ++ o') (c ++ c')
Descriptors-append {cs} {ds} e f = record {
  opening = opens-append cs ds ∙ ap₂ ◌++◌ e.opening f.opening;
  closing = closes-append cs ds ∙ ap₂ ◌++◌ e.closing f.closing;
}

pub close_all-Descriptors : (fds : List ℕ) → Descriptors (map Call.close fds) [] fds
unfolding opens closes
close_all-Descriptors [] = record { opening = refl; closing = refl }
close_all-Descriptors (fd ∷ fds) =
    let e = close_all-Descriptors fds in
    record { opening = e.opening; closing = ap (◌∷◌ fd) e.closing }

-- What keeps an event loop running, and what lets it go: watchers, and references of their own.
unfoldable pub is_keeping : Call → Bool
is_keeping (Call.signal_start n) = true
is_keeping Call.async_start = true
is_keeping Call.loop_ref = true
is_keeping c = false

unfoldable pub is_letting_go : Call → Bool
is_letting_go (Call.signal_stop n) = true
is_letting_go Call.async_stop = true
is_letting_go Call.loop_unref = true
is_letting_go c = false
