-- ===== src/Singlev/Logging.antt =====
-- singlev/src/logging.c: the stream of the log, and its five functions. The text is that of greenev/logging.c
-- but for the name of LOG_WARN.
use striga2_pocs.Base.{ℕ, Option, some, List}
use striga2_pocs.Logging.{Libc, Level, debug, warning, error, info, log_at}
use striga2_pocs.Logging as lines
use striga2_pocs.Logging.Stream.{Output, flushed, to_stream, Message, at, errno}

-- `logging_init`: the stream, and the result.
unfoldable pub logging_init : (stderr : ℕ) → Option ℕ × ℕ
logging_init stderr = (some stderr, 0)

unfoldable pub logging_finish : (logging_stream : Option ℕ) → Output
logging_finish logging_stream = flushed logging_stream

module _ (stderr : ℕ) (logging_stream : Option ℕ) (libc : Libc) (buffer : List ℕ) where
  unfoldable pub log_debug : Option Output
  log_debug = to_stream stderr logging_stream (log_at libc debug buffer)

  unfoldable pub log_warn : Option Output
  log_warn = to_stream stderr logging_stream (log_at libc warning buffer)

  unfoldable pub log_error : Option Output
  log_error = to_stream stderr logging_stream (log_at libc error buffer)

  unfoldable pub log_info : Option Output
  log_info = to_stream stderr logging_stream (log_at libc info buffer)

  unfoldable pub log_errno : (errnum : ℕ) → Option Output
  log_errno errnum = to_stream stderr logging_stream (lines.log_errno libc errnum buffer)

-- The call of the function that a message is for.
unfoldable pub say : (stderr : ℕ) → Option ℕ → Message → Option Output
unfolding log_debug log_warn log_error log_info log_errno
say stderr logging_stream m = elim m.kind [
  | at level ↦ elim level [
    | debug ↦ log_debug stderr logging_stream m.libc m.buffer
    | warning ↦ log_warn stderr logging_stream m.libc m.buffer
    | error ↦ log_error stderr logging_stream m.libc m.buffer
    | info ↦ log_info stderr logging_stream m.libc m.buffer
  ]
  | errno errnum ↦ log_errno stderr logging_stream m.libc m.buffer errnum
]
