-- ===== src/Logging/Stream.antt =====
-- Where the functions of greenev/logging.c and singlev/src/logging.c print, and sequences of their
-- calls.
use striga2_pocs.Base.{ℕ, Option, none, some, List, [], ◌∷◌, ◌++◌}
use striga2_pocs.Logging.{Libc, Level}

-- What a call of a log function does with a stream; `fflush` takes `NULL` too.
pub data Output : Type 0 where
  printed : (stream : ℕ) → List ℕ → Output
  flushed : Option ℕ → Output

-- `_logging_stream ? _logging_stream : stderr`
abbrev pub chosen : (stderr : ℕ) → (logging_stream : Option ℕ) → ℕ
chosen stderr none = stderr
chosen stderr (some stream) = stream

-- The `fputs` at the end of each function; `none` is a store outside the array before it.
abbrev pub to_stream : (stderr : ℕ) → (logging_stream : Option ℕ) → Option (List ℕ) → Option Output
to_stream stderr logging_stream none = none
to_stream stderr logging_stream (some line) = some (printed (chosen stderr logging_stream) line)

-- A call: of the function for a level, or of LOG_ERRNO with an error. `libc` answers it, and `buffer`
-- is the array as it was. `stamp`, `text` and `message` are the time, the formatted text and the
-- text of the error, for what libc documents of it.
pub data Kind : Type 0 where
  at : Level → Kind
  errno : ℕ → Kind

pub record Message : Type 0 where
  pub kind : Kind
  pub libc : Libc
  pub buffer : List ℕ
  pub stamp : List ℕ
  pub text : List ℕ
  pub message : List ℕ

-- Calls one after the other, up to one that stores outside its array.
unfoldable pub say_all :
    (Option ℕ → Message → Option Output) → Option ℕ → List Message → Option (List Output)
say_all say logging_stream [] = some []
say_all say logging_stream (m ∷ ms) = elim (say logging_stream m) [
  | none ↦ none
  | some output ↦ elim (say_all say logging_stream ms) [
    | none ↦ none
    | some outputs ↦ some (output ∷ outputs)
  ]
]

-- The calls of a program, from `logging_init` to `logging_finish`.
unfoldable pub logged :
    (initial : Option ℕ × ℕ)
    → (finish : Option ℕ → Output) → (say : Option ℕ → Message → Option Output) → List Message
    → Option (List Output)
unfolding say_all
logged (logging_stream, _) finish say ms = elim (say_all say logging_stream ms) [
  | none ↦ none
  | some outputs ↦ some (outputs ++ finish logging_stream ∷ [])
]
