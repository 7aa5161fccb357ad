-- ===== src/Logging.antt =====
-- greenev/logging.c and singlev/src/logging.c, which are the same text but for the name of
-- LOG_WARNING, LOG_WARN in singlev: a line is put together in an array on the stack, and printed.
-- What libc stores and answers is a parameter.
pub mod Buffer
pub mod Lines
pub mod Errno
pub mod Stream
pub mod InOrder
use striga2_pocs.Base.{
  ℕ, zero, suc, ◌+◌, ◌-◌, ◌^◌, Option, none, some, List, [], ◌∷◌, ◌++◌, ltb, if◌then◌else◌, ℤ, pos,
  negsuc,
}
use Buffer.{store, ◌>>=◌}

-- libc, at one call of a function of the log: what `strftime` stores at the start of its array for
-- a limit, the bytes that `strcpy` stores for a string, what `vsnprintf` stores for a limit and what
-- it answers, what `strerror_r` stores for an error and a limit, where and what `strcat` stores in
-- an array with a string behind it, and what `fputs` prints of an array.
pub record Libc : Type 0 where
  pub strftime : ℕ → List ℕ
  pub strcpy : List ℕ → List ℕ
  pub vsnprintf : ℕ → List ℕ × ℤ
  pub strerror_r : ℕ → ℕ → List ℕ
  pub strcat : List ℕ → List ℕ → ℕ × List ℕ
  pub fputs : List ℕ → List ℕ

pub data Level : Type 0 where
  debug warning error info : Level

-- The words, in ASCII: `DEBUG: `, ` WARN: `, `ERROR: ` and ` INFO: `.
unfoldable pub words : Level → List ℕ
words debug = 68 ∷ 69 ∷ 66 ∷ 85 ∷ 71 ∷ 58 ∷ 32 ∷ []
words warning = 32 ∷ 87 ∷ 65 ∷ 82 ∷ 78 ∷ 58 ∷ 32 ∷ []
words error = 69 ∷ 82 ∷ 82 ∷ 79 ∷ 82 ∷ 58 ∷ 32 ∷ []
words info = 32 ∷ 73 ∷ 78 ∷ 70 ∷ 79 ∷ 58 ∷ 32 ∷ []

-- The index `rc + n`; `none` lies before the array.
abbrev pub plus_rc : ℕ → ℤ → Option ℕ
plus_rc n (pos rc) = some (n + rc)
plus_rc n (negsuc m) = if ltb m n then some (n - suc m) else none

-- The part that all five functions begin with: the array after the time, the words and the text, and
-- what `vsnprintf` answers. `none` is a store outside the array, here and below.
unfoldable pub begin_line : Libc → Level → (size : ℕ) → List ℕ → Option (List ℕ × ℤ)
begin_line libc level size buffer = do
  timed ← store 0 (libc.strftime 26) buffer
  worded ← store 20 (libc.strcpy (words level)) timed
  let (text, rc) = libc.vsnprintf (size - 28)
  written ← store 27 text worded
  some (written, rc)

-- LOG_DEBUG, LOG_WARNING, LOG_ERROR and LOG_INFO: what is printed. `buffer` is the array as it was.
unfoldable pub log_at : Libc → Level → (buffer : List ℕ) → Option (List ℕ)
unfolding begin_line
log_at libc level buffer = do
  (written, rc) ← begin_line libc level 511 buffer
  at ← plus_rc 27 rc
  broken ← store at (10 ∷ []) written
  ended ← store (suc at) (0 ∷ []) broken
  some (libc.fputs ended)

-- LOG_ERRNO. The limit of `strerror_r` is a difference of `size_t`.
unfoldable pub log_errno : Libc → (errnum : ℕ) → (buffer : List ℕ) → Option (List ℕ)
unfolding begin_line
log_errno libc errnum buffer = do
  (written, rc) ← begin_line libc error 1023 buffer
  at ← plus_rc 27 rc
  colon ← store at (58 ∷ []) written
  spaced ← store (suc at) (32 ∷ []) colon
  let limit = if ltb 1023 (at + 3) then 2 ^ 64 + 1023 - (at + 3) else 1023 - (at + 3)
  told ← store (at + 2) (libc.strerror_r errnum limit) spaced
  let (end, line_break) = libc.strcat told (10 ∷ [])
  ended ← store end line_break told
  some (libc.fputs ended)
