-- ===== src/Logging/Lines.antt =====
-- What LOG_DEBUG, LOG_WARNING, LOG_ERROR and LOG_INFO of greenev/logging.c, and the same functions
-- of singlev/src/logging.c, print.
use striga2_pocs.Base.{
  ℕ, zero, suc, ◌+◌, ◌-◌, ◌≤◌, ◌<◌, ◌≡◌, refl, sym, ◌∙◌, ap, subst, inl, inr, Bool, true, not, ◌&&◌,
  none, some, List, [], ◌∷◌, ◌++◌, append_assoc, length, length-append, arith, ◌==◌, pos, leb,
  Bool-cases, if◌then◌else◌, Option-cases,
}
use striga2_pocs.Logging.{Libc, Level, debug, warning, error, info, words, begin_line, log_at}
use striga2_pocs.Logging.Buffer.{
  store_string, store, Begins, store-Begins, store-beyond, length-store,
}

abbrev pub take {ℓ} : {A : Type ℓ} → ℕ → List A → List A
take zero xs = []
take (suc n) [] = []
take (suc n) (x ∷ xs) = x ∷ take n xs

pub take-all : (n : ℕ) (xs : List ℕ) → length xs ≤ n → take n xs ≡ xs
take-all zero [] h = refl
take-all zero (x ∷ xs) h = absurd (omega arith)
take-all (suc n) [] h = refl
take-all (suc n) (x ∷ xs) h = ap (◌∷◌ x) (take-all n xs (omega arith))

pub length-take : (n : ℕ) (xs : List ℕ) → length (take n xs) ≤ n
length-take zero xs = omega arith
length-take (suc n) [] = omega arith
length-take (suc n) (x ∷ xs) = omega (arith, length-take n xs)

-- A C string holds no NUL.
abbrev pub has_no_nul : List ℕ → Bool
has_no_nul [] = true
has_no_nul (c ∷ s) = not (c == 0) && has_no_nul s

pub no_nul-append :
    (s t : List ℕ) → has_no_nul s ≡ true → has_no_nul t ≡ true → has_no_nul (s ++ t) ≡ true
no_nul-append [] t h k = k
no_nul-append (c ∷ s) t h k = grind (arith, no_nul-append s t, h, k)

-- What the manuals say of libc, for a call at the time `stamp` with the formatted text `text`: the
-- time has the 20 characters of its format, `vsnprintf` stores at most its limit and answers the
-- length that the whole text has, and `fputs` prints up to the first NUL.
pub record Documented (libc : Libc) (stamp text : List ℕ) : Type 0 where
  pub strftime : libc.strftime 26 ≡ stamp ++ 0 ∷ []
  pub stamp_length : length stamp ≡ 20
  pub stamp_string : has_no_nul stamp ≡ true
  pub text_string : has_no_nul text ≡ true
  pub strcpy : (s : List ℕ) → libc.strcpy s ≡ s ++ 0 ∷ []
  pub vsnprintf :
      (limit : ℕ) → libc.vsnprintf (suc limit) ≡ (take limit text ++ 0 ∷ [], pos (length text))
  pub fputs : (s rest : List ℕ) → has_no_nul s ≡ true → libc.fputs (s ++ 0 ∷ rest) ≡ s

length-words : (level : Level) → length (words level) ≡ 7
unfolding words
length-words debug = refl
length-words warning = refl
length-words error = refl
length-words info = refl

words-string : (level : Level) → has_no_nul (words level) ≡ true
unfolding words
words-string debug = refl
words-string warning = refl
words-string error = refl
words-string info = refl

abbrev pub line_start : List ℕ → Level → List ℕ
line_start stamp level = stamp ++ words level

pub length-line_start :
    (stamp : List ℕ) (level : Level) → length stamp ≡ 20 → length (line_start stamp level) ≡ 27
length-line_start stamp level h =
    omega (arith, h, length-append stamp (words level), length-words level)

-- The common beginning never goes outside its array.
pub begin_line-Begins :
    (libc : Libc) (level : Level) (stamp text buffer : List ℕ) (room : ℕ)
    → Documented libc stamp text
    → length buffer ≡ 29 + room
    → (written : List ℕ) × (begin_line libc level (29 + room) buffer
        ≡ some (written, pos (length text)))
      × Begins (29 + room) (line_start stamp level ++ take room text) written
unfolding begin_line
begin_line-Begins libc level stamp text buffer room d h =
    let empty : Begins (29 + room) [] buffer = record { rest = buffer; split = refl; sized = h } in
    let start = line_start stamp level in
    let shown = take room text in
    let (timed, t, b) =
      store_string stamp (libc.strftime 26) 0 d.strftime empty refl
        (omega (arith, d.stamp_length)) in
    let (worded, w, c) =
      store_string (words level) (libc.strcpy (words level)) 20 (d.strcpy (words level)) b
        (sym d.stamp_length) (omega (arith, d.stamp_length, length-words level)) in
    let (written, r, f) =
      store_string shown (shown ++ 0 ∷ []) 27 refl c
        (sym (length-line_start stamp level d.stamp_length))
        (omega (arith, length-line_start stamp level d.stamp_length, length-take room text)) in
    let limit : 29 + room - 28 ≡ suc room = omega arith in
    (written, rw (begin_line, t, w, limit, d.vsnprintf room, r) refl, f)

-- What is printed of an array that begins with a string.
pub fputs-Begins :
    (libc : Libc) (stamp text s buffer : List ℕ) (size : ℕ)
    → Documented libc stamp text
    → Begins size (s ++ 0 ∷ []) buffer
    → has_no_nul s ≡ true
    → libc.fputs buffer ≡ s
fputs-Begins libc stamp text s buffer size d b h =
    ap libc.fputs (b.split ∙ append_assoc s (0 ∷ []) b.rest) ∙ d.fputs s b.rest h

pub line_start-string :
    (stamp : List ℕ) (level : Level)
    → has_no_nul stamp ≡ true
    → has_no_nul (line_start stamp level) ≡ true
line_start-string stamp level h = no_nul-append stamp (words level) h (words-string level)

-- A text that fits, and one that does not.
log_at_cases :
    (libc : Libc) (level : Level) (stamp text buffer : List ℕ)
    → Documented libc stamp text
    → length buffer ≡ 511
    → (length text ≤ 482
        → log_at libc level buffer ≡ some ((line_start stamp level ++ text) ++ 10 ∷ []))
      × (482 < length text → log_at libc level buffer ≡ none)
unfolding log_at
log_at_cases libc level stamp text buffer d h =
    let (written, begun, b) = begin_line-Begins libc level stamp text buffer 482 d h in
    let place : ℕ = 27 + length text in
    let line = line_start stamp level ++ text in
    let whole = length-line_start stamp level d.stamp_length in
    let sized = length-append (line_start stamp level) text in
    (
      λ fits.
          let b' =
            subst (λ t. Begins 511 (line_start stamp level ++ t) written) (take-all 482 text fits)
              b in
          let (broken, e, c) =
            store-Begins (10 ∷ []) place b' (omega (arith, whole, sized))
              (omega (arith, whole, sized)) in
          let (ended, f, g) =
            store-Begins (0 ∷ []) (suc place) c
              (omega (arith, whole, sized, length-append line (10 ∷ [])))
              (omega (arith, whole, sized, length-append line (10 ∷ []))) in
          let string =
            no_nul-append line (10 ∷ [])
              (no_nul-append (line_start stamp level) text
                (line_start-string stamp level d.stamp_string) d.text_string)
              refl in
          rw (log_at, begun, e, f) (ap some (fputs-Begins libc stamp text _ ended 511 d g string)),
      λ longer. elim (Option-cases (store place (10 ∷ []) written)) [
        | inl e ↦ rw (log_at, begun, e) refl
        | inr (broken, e) ↦
            let kept = length-store place (10 ∷ []) written broken e in
            let beyond =
              store-beyond (suc place) 0 [] broken (omega (arith, longer, kept, b.sized)) in
            rw (log_at, begun, e, beyond) refl
      ],
    )

-- A line whose text has at most 482 characters is printed as the time, the words of its level, the
-- text and a line break. A longer text is a store outside the array, since the place of the line
-- break is that behind the whole text, not behind the part of it that was stored.
pub log_at-prints :
    (libc : Libc) (level : Level) (stamp text buffer : List ℕ)
    → Documented libc stamp text
    → length buffer ≡ 511
    → log_at libc level buffer
      ≡ (if leb (length text) 482 then some ((line_start stamp level ++ text) ++ 10 ∷ []) else none)
log_at-prints libc level stamp text buffer d h =
    let (fits, longer) = log_at_cases libc level stamp text buffer d h in
    elim (Bool-cases (leb (length text) 482)) [
      | inl e ↦ rw e (fits (ground (arith, e)))
      | inr e ↦ rw e (longer (ground (arith, e)))
    ]
