-- ===== src/Tests/LogLines.antt =====
-- Lines of the log, with concrete functions in the place of libc's.
use striga2_pocs.Base.{
  ℕ, zero, suc, ◌≡◌, refl, ap, inl, inr, true, none, some, List, [], ◌∷◌, ◌++◌, length, arith, ◌==◌,
  Bool-cases, if◌then◌else◌, pos,
}
use striga2_pocs.Logging.{Libc, info, error, log_at, log_errno}
use striga2_pocs.Logging.Lines.{take, has_no_nul, Documented, line_start, log_at-prints}
use striga2_pocs.Logging.Stream.{printed, flushed, at, errno, Message, logged, say_all}
use striga2_pocs.Logging.InOrder.{logged-in_order}
use striga2_pocs.Greenev.Logging as greenev
use striga2_pocs.Singlev.Logging as singlev
use striga2_pocs.Logging.Errno.{DocumentedErrno, log_errno-prints}

abbrev before_nul : List ℕ → List ℕ
before_nul [] = []
before_nul (c ∷ s) = let rest = before_nul s in if c == 0 then [] else c ∷ rest

before_nul-string : (s rest : List ℕ) → has_no_nul s ≡ true → before_nul (s ++ 0 ∷ rest) ≡ s
before_nul-string [] rest h = refl
before_nul-string (c ∷ s) rest h = elim (Bool-cases (c == 0)) [
  | inl e ↦ absurd (ground (arith, h, e))
  | inr e ↦ rw e (ap (◌∷◌ c) (before_nul-string s rest (ground (arith, h, e))))
]

-- `2024:01:02 03:04:05 `
abbrev stamp : List ℕ
stamp =
    50 ∷ 48 ∷ 50 ∷ 52 ∷ 58 ∷ 48 ∷ 49 ∷ 58 ∷ 48 ∷ 50 ∷ 32 ∷ 48 ∷ 51 ∷ 58 ∷ 48 ∷ 52 ∷ 58 ∷ 48 ∷ 53
    ∷ 32 ∷ []

-- `hi`, and `no`
abbrev text : List ℕ
text = 104 ∷ 105 ∷ []

abbrev message : List ℕ
message = 110 ∷ 111 ∷ []

-- What a function stores that is given a limit with room for the NUL.
abbrev cut : ℕ → List ℕ → List ℕ
cut zero s = []
cut (suc limit) s = take limit s ++ 0 ∷ []

abbrev libc : Libc
libc = record {
  strftime = λ limit. stamp ++ 0 ∷ [];
  strcpy = λ s. s ++ 0 ∷ [];
  vsnprintf = λ limit. (cut limit text, pos (length text));
  strerror_r = λ errnum limit. cut limit message;
  strcat = λ buffer s. (length (before_nul buffer), s ++ 0 ∷ []);
  fputs = before_nul;
}

libc-Documented : Documented libc stamp text
libc-Documented = record {
  strftime = refl;
  stamp_length = refl;
  stamp_string = refl;
  text_string = refl;
  strcpy = λ s. refl;
  vsnprintf = λ limit. refl;
  fputs = before_nul-string;
}

libc-DocumentedErrno : DocumentedErrno libc 5 message
libc-DocumentedErrno = record {
  message_string = refl;
  strerror_r = λ limit. refl;
  strcat = λ s rest t h. ap (λ b. (length b, t ++ 0 ∷ [])) (before_nul-string s rest h);
}

abbrev zeros : ℕ → List ℕ
zeros zero = []
zeros (suc n) = 0 ∷ zeros n

log_at-prints_example :
    log_at libc info (zeros 511) ≡ some ((line_start stamp info ++ text) ++ 10 ∷ [])
log_at-prints_example = log_at-prints libc info stamp text (zeros 511) libc-Documented refl

log_errno-prints_example :
    log_errno libc 5 (zeros 1023)
    ≡ some ((((line_start stamp error ++ text) ++ 58 ∷ 32 ∷ []) ++ message) ++ 10 ∷ [])
log_errno-prints_example =
    log_errno-prints libc 5 stamp text message (zeros 1023) libc-Documented libc-DocumentedErrno
      refl (inl (omega arith))

-- `hi` as an INFO, then as an error with the text `no`.
abbrev messages : List Message
messages =
    record {
      kind = at info;
      libc = libc;
      buffer = zeros 511;
      stamp = stamp;
      text = text;
      message = message;
    }
    ∷ record {
      kind = errno 5;
      libc = libc;
      buffer = zeros 1023;
      stamp = stamp;
      text = text;
      message = message;
    }
    ∷ []

logged-in_order_example :
    let outputs =
      printed 2 ((line_start stamp info ++ text) ++ 10 ∷ [])
      ∷ printed 2 ((((line_start stamp error ++ text) ++ 58 ∷ 32 ∷ []) ++ message) ++ 10 ∷ [])
      ∷ [] in
    (logged (greenev.logging_init 2) greenev.logging_finish (greenev.say 2) messages
      ≡ some (outputs ++ flushed (some 2) ∷ []))
    × (logged (singlev.logging_init 2) singlev.logging_finish (singlev.say 2) messages
        ≡ some (outputs ++ flushed (some 2) ∷ []))
    × (say_all (greenev.say 2) none messages ≡ some outputs)
    × (say_all (singlev.say 2) none messages ≡ some outputs)
logged-in_order_example = logged-in_order 2 messages (
  (libc-Documented, refl, omega arith),
  ((libc-Documented, libc-DocumentedErrno, refl, omega arith), tt),
)
