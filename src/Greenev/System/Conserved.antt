-- ===== src/Greenev/System/Conserved.antt =====
-- That no descriptor is forgotten between the threads of greenev, but those whose command found the
-- queue full.
use striga2_pocs.Base.{ℕ, ◌+◌, ◌≡◌, refl, ap, Bool, true, List, arith}
use striga2_pocs.Calls.{Call, opens, closes, opens-append, closes-append}
use striga2_pocs.Greenev.CmdQEv.Drain.{Keeps}
use striga2_pocs.Greenev.IoThread.{SockObj}
use striga2_pocs.Greenev.IoThread.Life.Accounts.{times, times-append}
use striga2_pocs.Greenev.System.{
  System, Step, listens, connects, dies, takes, accepts, reads, Run, stays, goes,
}
use striga2_pocs.Greenev.System.Pending.{standing}
use striga2_pocs.Greenev.System.Steps.{
  Stepped, listens-Stepped, connects-Stepped, dies-Stepped, takes-Stepped, accepts-Stepped,
  reads-Stepped,
}

module _ (memory : ℕ → SockObj) (intact : ℕ → Bool) (size callbackarg fd : ℕ) where
  pub step-Stepped :
      (s s' : System) (calls : List Call)
      → ((address : ℕ) → intact address ≡ true)
      → Keeps s.thread.cmd_q size callbackarg s.waiting
      → Step memory intact size s calls s'
      → Stepped memory intact size callbackarg fd s calls s'
  step-Stepped s s' calls h k (listens _ resolved placed) =
      listens-Stepped memory intact size callbackarg fd s resolved k placed
  step-Stepped s s' calls h k (connects _ resolved placed) =
      connects-Stepped memory intact size callbackarg fd s resolved k placed
  step-Stepped s s' calls h k (dies _) = dies-Stepped memory intact size callbackarg fd s k
  step-Stepped s s' calls h k (takes _ cmd thread' _ taken done_) =
      takes-Stepped memory intact size callbackarg fd s cmd thread' calls h k taken done_
  step-Stepped s s' calls h k (accepts _ l is_error is_read client has_app address) =
      accepts-Stepped memory intact size callbackarg fd s l is_error is_read client has_app address
        k
  step-Stepped s s' calls h k (reads _ sockobj is_read size' thread' _ l done_) =
      reads-Stepped memory intact size callbackarg fd s sockobj is_read size' thread' calls k l
        done_

  -- Let other threads listen, connect and tell the thread to end, and let the thread take commands,
  -- accept connections, and read from the sockets in its list, as far as a read comes to its end, in
  -- any order and any number: the times a descriptor is opened, and it
  -- stood somewhere in the system before, come to the times it is closed, and it stands somewhere
  -- after, in a list of the thread, in a command that waits, or in one whose put found the queue
  -- full. The queue holds the commands that wait, in order. (Freed memory keeps what it was, and
  -- the queue holds what waits at the beginning.)
  pub conserves_descriptors :
      (s s' : System) (calls : List Call)
      → ((address : ℕ) → intact address ≡ true)
      → Keeps s.thread.cmd_q size callbackarg s.waiting
      → Run memory intact size s calls s'
      → (times fd (opens calls) + standing memory fd s
          ≡ times fd (closes calls) + standing memory fd s')
        × Keeps s'.thread.cmd_q size callbackarg s'.waiting
  unfolding times opens closes Stepped
  conserves_descriptors s _ _ h k (stays _) = (refl, k)
  conserves_descriptors s _ _ h k
        (goes {s' = s'} {s'' = s''} {calls = calls} {more = more} step run) =
      let (e, k') = step-Stepped s s' calls h k step in
      let (e', k'') = conserves_descriptors s' s'' more h k' run in
      (
        omega (
          arith,
          e,
          e',
          ap (times fd) (opens-append calls more),
          ap (times fd) (closes-append calls more),
          times-append fd (opens calls) (opens more),
          times-append fd (closes calls) (closes more),
        ),
        k'',
      )
