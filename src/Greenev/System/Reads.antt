-- ===== src/Greenev/System/Reads.antt =====
-- What `_on_io_thread_readwrite` of greenev/iothread.c does with descriptors, whatever is read and
-- whatever state the pool of greenev/iobuffer.c is in.
use striga2_pocs.Base.{
  ℕ, zero, suc, ◌+◌, ◌/◌, ◌≡◌, refl, ◌∙◌, ap, Bool, true, false, List, [], ◌∷◌, ◌++◌, arith, ltb,
  ◌==◌, if◌then◌else◌, ℤ, pos, negsuc,
}
use mathlib.Core.List.{map-append}
use striga2_pocs.Calls.{
  Call, log, read, close, io_stop, free, opens, closes, opens-append, closes-append,
}
use striga2_pocs.Greenev.IoBuffer.{
  IoBuffer, Returned, returned, asserted, overrun, io_buffer_get, io_buffer_put,
  io_buffer_slot_size,
}
use striga2_pocs.Greenev.IoBuffer.Laws.{QuietPut, io_buffer_get-calls, io_buffer_put-calls}
use striga2_pocs.Greenev.IoThread.{
  SockObj, IoThread, Ended, ended, asserted_out, used_after_free, overran, unlink,
  io_thread_sockobj_close, on_io_thread_readwrite, drop, bases, give_back, then_give_back,
}
use striga2_pocs.Greenev.IoThread.Sockets.{unlink-present}
use striga2_pocs.Greenev.System.{Listed}
use striga2_pocs.Greenev.IoThread.Life.Accounts.{times, times-append, held, fds}

-- What a handler that ends does with a descriptor, and that it leaves the queue alone.
abbrev pub Settled : ℕ → IoThread → Ended IoThread → Type 0
Settled fd this (ended this' calls) =
    (times fd (opens calls) + times fd (held this)
      ≡ times fd (closes calls) + times fd (held this'))
    × (this'.cmd_q ≡ this.cmd_q)
Settled fd this asserted_out = Unit
Settled fd this used_after_free = Unit
Settled fd this overran = Unit

module _ (fd : ℕ) (this : IoThread) where
  put_back :
      (this' : IoThread) (calls : List Call) (r : Returned)
      → QuietPut r
      → Settled fd this (ended this' calls)
      → Settled fd this (elim r [
        | returned buf more ↦ ended (record this' { tmp_io_buf = buf }) (calls ++ more)
        | asserted ↦ asserted_out
        | overrun ↦ overran
      ])
  unfolding opens closes times
  put_back this' calls (returned buf more) quiet (e, q) = (
    omega (
      arith,
      e,
      ap (times fd) (opens-append calls more),
      ap (times fd) (closes-append calls more),
      times-append fd (opens calls) (opens more),
      times-append fd (closes calls) (closes more),
      ap (λ cs. times fd (opens cs)) quiet,
      ap (λ cs. times fd (closes cs)) quiet,
    ),
    q,
  )
  put_back this' calls asserted quiet kept = tt
  put_back this' calls overrun quiet kept = tt

  give_back-Settled :
      (this' : IoThread) (calls : List Call) (iovec : List ℕ)
      → Settled fd this (ended this' calls)
      → Settled fd this (give_back this' calls iovec)
  unfolding give_back
  give_back-Settled this' calls iovec kept =
      put_back this' calls (io_buffer_put this'.tmp_io_buf iovec)
        (io_buffer_put-calls this'.tmp_io_buf iovec) kept

  -- The close of a socket in the list, and the slots after it.
  close-Settled :
      (buf : IoBuffer) (sockobj : SockObj) (calls : List Call) (iovec : List ℕ)
      → Listed sockobj this.established
      → opens calls ≡ []
      → closes calls ≡ []
      → Settled fd this (
          then_give_back
            (io_thread_sockobj_close true (record this { tmp_io_buf = buf }) sockobj)
            calls
            iovec)
  unfolding then_give_back io_thread_sockobj_close opens closes times
  close-Settled buf sockobj calls iovec l o c =
      let left : IoThread = record this { established = l.before ++ l.after; tmp_io_buf = buf } in
      let closed = close sockobj.fd ∷ io_stop sockobj.fd ∷ free ∷ [] in
      let gone =
        ap (unlink sockobj.address) l.split ∙ unlink-present sockobj l.before l.after l.first in
      rw (gone, then_give_back)
        (give_back-Settled left (calls ++ closed) iovec (
          omega (
            arith,
            ap (times fd) o,
            ap (times fd) c,
            ap (times fd) (opens-append calls closed),
            ap (times fd) (closes-append calls closed),
            times-append fd (opens calls) (opens closed),
            times-append fd (closes calls) (closes closed),
            times-append fd (fds this.listening) (fds this.established),
            times-append fd (fds this.listening) (fds (l.before ++ l.after)),
            ap (λ xs. times fd (fds xs)) l.split,
            ap (times fd) (map-append (λ (s : SockObj). s.fd) l.before l.after),
            ap (times fd) (map-append (λ (s : SockObj). s.fd) l.before (sockobj ∷ l.after)),
            times-append fd (fds l.before) (fds l.after),
            times-append fd (fds l.before) (sockobj.fd ∷ fds l.after),
          ),
          refl,
        ))

  either :
      (b : Bool) (x y : Ended IoThread)
      → Settled fd this x
      → Settled fd this y
      → Settled fd this (if b then x else y)
  either true x y p q = p
  either false x y p q = q

  -- Calls with no descriptor among them, and the pool changed.
  quiet-Settled :
      (buf : IoBuffer) (calls : List Call)
      → opens calls ≡ []
      → closes calls ≡ []
      → Settled fd this (ended (record this { tmp_io_buf = buf }) calls)
  unfolding times
  quiet-Settled buf calls o c = (omega (arith, ap (times fd) o, ap (times fd) c), refl)

  -- What follows a read.
  after_read :
      (buf : IoBuffer) (iovcnt : ℕ) (iovec : List ℕ) (calls : List Call) (sockobj : SockObj)
      (size : ℤ)
      → Listed sockobj this.established
      → opens calls ≡ []
      → closes calls ≡ []
      → let this' : IoThread = record this { tmp_io_buf = buf } in
        Settled fd this (elim size [
          | negsuc n ↦
              then_give_back (io_thread_sockobj_close true this' sockobj) (calls ++ log ∷ []) iovec
          | pos zero ↦ then_give_back (io_thread_sockobj_close true this' sockobj) calls iovec
          | pos (suc n) ↦
              let used_iovcnt = 1 + n / io_buffer_slot_size in
              if used_iovcnt == 4
              then ended this' (calls ++ log ∷ [])
              else (if ltb used_iovcnt iovcnt
                  then give_back this' calls (drop used_iovcnt iovec)
                  else ended this' calls)
        ])
  unfolding opens closes
  after_read buf iovcnt iovec calls sockobj (negsuc n) l o c =
      close-Settled buf sockobj (calls ++ log ∷ []) iovec l
        (opens-append calls (log ∷ []) ∙ ap (λ xs. xs ++ []) o)
        (closes-append calls (log ∷ []) ∙ ap (λ xs. xs ++ []) c)
  after_read buf iovcnt iovec calls sockobj (pos zero) l o c =
      close-Settled buf sockobj calls iovec l o c
  after_read buf iovcnt iovec calls sockobj (pos (suc n)) l o c =
      let this' : IoThread = record this { tmp_io_buf = buf } in
      let used_iovcnt = 1 + n / io_buffer_slot_size in
      either (used_iovcnt == 4) _ _
        (quiet-Settled buf (calls ++ log ∷ [])
          (opens-append calls (log ∷ []) ∙ ap (λ xs. xs ++ []) o)
          (closes-append calls (log ∷ []) ∙ ap (λ xs. xs ++ []) c))
        (either (ltb used_iovcnt iovcnt) _ _
          (give_back-Settled this' calls (drop used_iovcnt iovec) (quiet-Settled buf calls o c))
          (quiet-Settled buf calls o c))

  -- On every branch that ends.
  pub readwrite-Settled :
      (sockobj : SockObj) (is_read : Bool) (size : ℤ)
      → Listed sockobj this.established
      → Settled fd this (on_io_thread_readwrite this sockobj is_read size)
  unfolding on_io_thread_readwrite opens closes
  readwrite-Settled sockobj false size l = (refl, refl)
  readwrite-Settled sockobj true size l =
      let (buf, iovcnt, iovec, got) = io_buffer_get this.tmp_io_buf 4 in
      let quiet = io_buffer_get-calls this.tmp_io_buf 4 in
      either (iovcnt == 0) _ _
        (quiet-Settled buf (got ++ log ∷ []) (ap (λ g. opens (g ++ log ∷ [])) quiet)
          (ap (λ g. closes (g ++ log ∷ [])) quiet))
        (after_read buf iovcnt (bases iovec) (got ++ read sockobj.fd ∷ []) sockobj size l
          (ap (λ g. opens (g ++ read sockobj.fd ∷ [])) quiet)
          (ap (λ g. closes (g ++ read sockobj.fd ∷ [])) quiet))
