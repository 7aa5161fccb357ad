-- ===== src/Greenev/Cmd.antt =====
-- `struct cmd` of greenev/cmdq.h, which both command queues of greenev hold.
use striga2_pocs.Base.{ℕ}

-- The id is an `int`, read here as a number; `arg` is a pointer.
pub record Cmd : Type 0 where
  pub id : ℕ
  pub arg : ℕ
