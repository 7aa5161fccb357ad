-- ===== src/Logging/Errno.antt =====
-- What LOG_ERRNO of greenev/logging.c and of singlev/src/logging.c prints.
use striga2_pocs.Base.{
  ℕ, zero, suc, ◌+◌, ◌-◌, ◌≤◌, ◌<◌, ◌≡◌, ◌^◌, refl, sym, ◌∙◌, ap, subst, inl, inr, true, false,
  none, some, List, [], ◌∷◌, ◌++◌, append_assoc, length, length-append, arith, leb, ltb, ◌⊎◌,
  Option-cases, if◌then◌else◌,
}
use striga2_pocs.Logging.{Libc, error, log_errno}
use striga2_pocs.Logging.Buffer.{
  store, Begins, store-Begins, store-beyond, length-store, Begins-less,
}
use striga2_pocs.Logging.Lines.{
  take, length-take, take-all, has_no_nul, no_nul-append, Documented, line_start, length-line_start,
  line_start-string, begin_line-Begins, fputs-Begins,
}

-- What the manuals say of the two functions that only LOG_ERRNO calls: `strerror_r` stores as much
-- of the error's message as its limit allows, and `strcat` stores behind a string.
pub record DocumentedErrno (libc : Libc) (errnum : ℕ) (message : List ℕ) : Type 0 where
  pub message_string : has_no_nul message ≡ true
  pub strerror_r : (limit : ℕ) → libc.strerror_r errnum (suc limit) ≡ take limit message ++ 0 ∷ []
  pub strcat :
      (s rest t : List ℕ)
      → has_no_nul s ≡ true
      → libc.strcat (s ++ 0 ∷ rest) t ≡ (length s, t ++ 0 ∷ [])

no_nul-take : (n : ℕ) (s : List ℕ) → has_no_nul s ≡ true → has_no_nul (take n s) ≡ true
no_nul-take zero s h = refl
no_nul-take (suc n) [] h = refl
no_nul-take (suc n) (c ∷ s) h = grind (arith, no_nul-take n s, h)

-- A store of a string leaves the array as a string: what it begins with, and a NUL.
store_terminated :
    {size : ℕ} {s : List ℕ} (t bytes : List ℕ) {buffer : List ℕ} (i : ℕ)
    → bytes ≡ t ++ 0 ∷ []
    → Begins size s buffer
    → i ≡ length s
    → length s + length t < size
    → (stored : List ℕ) × (store i bytes buffer ≡ some stored)
      × Begins size ((s ++ t) ++ 0 ∷ []) stored
store_terminated {size} {s} t bytes i e b at h =
    let nul : List ℕ = 0 ∷ [] in
    let (stored, all, b') =
      store-Begins bytes i b at (omega (arith, h, ap length e, length-append t nul)) in
    let split : s ++ bytes ≡ (s ++ t) ++ nul = ap (λ r. s ++ r) e ∙ sym (append_assoc s t nul) in
    (stored, all, subst (λ r. Begins size r stored) split b')

limit_left :
    (n : ℕ)
    → n ≤ 992
    → (if ltb 1023 (27 + n + 3) then 2 ^ 64 + 1023 - (27 + n + 3) else 1023 - (27 + n + 3))
      ≡ suc (992 - n)
limit_left n h = ground arith

-- The end of the line: the message, as far as there is room for it, and a line break.
message-Begins :
    (libc : Libc) (errnum i limit : ℕ) (stamp text message head spaced : List ℕ)
    → Documented libc stamp text
    → DocumentedErrno libc errnum message
    → Begins 1023 head spaced
    → has_no_nul head ≡ true
    → i ≡ length head
    → i + suc limit ≡ 1022
    → let line = head ++ take limit message in
      (told ended : List ℕ) × (store i (libc.strerror_r errnum (suc limit)) spaced ≡ some told)
      × (libc.strcat told (10 ∷ []) ≡ (length line, 10 ∷ 0 ∷ []))
      × (store (length line) (10 ∷ 0 ∷ []) told ≡ some ended)
      × (libc.fputs ended ≡ line ++ 10 ∷ [])
message-Begins libc errnum i limit stamp text message head spaced d d' b string at room =
    let nul : List ℕ = 0 ∷ [] in
    let shown = take limit message in
    let line = head ++ shown in
    let (told, e, c) =
      store_terminated shown (libc.strerror_r errnum (suc limit)) i (d'.strerror_r limit) b at
        (omega (arith, at, room, length-take limit message)) in
    let line_string =
      no_nul-append head shown string (no_nul-take limit message d'.message_string) in
    let found =
      ap (λ r. libc.strcat r (10 ∷ [])) (c.split ∙ append_assoc line nul c.rest)
      ∙ d'.strcat line c.rest (10 ∷ []) line_string in
    let (ended, f, g) =
      store_terminated (10 ∷ []) (10 ∷ 0 ∷ []) (length line) refl (Begins-less line nul c) refl
        (omega (arith, at, room, length-take limit message, length-append head shown)) in
    (
      told,
      ended,
      e,
      found,
      f,
      fputs-Begins libc stamp text (line ++ 10 ∷ []) ended 1023 d g
          (no_nul-append line (10 ∷ []) line_string refl),
    )

-- A text that fits, and one that does not.
log_errno_cases :
    (libc : Libc) (errnum : ℕ) (stamp text message buffer : List ℕ)
    → Documented libc stamp text
    → DocumentedErrno libc errnum message
    → length buffer ≡ 1023
    → (length text ≤ 992
        → log_errno libc errnum buffer
          ≡ some (
              (((line_start stamp error ++ text) ++ 58 ∷ 32 ∷ [])
                ++ take (992 - length text) message)
              ++ 10 ∷ []))
      × (994 < length text → log_errno libc errnum buffer ≡ none)
unfolding log_errno
log_errno_cases libc errnum stamp text message buffer d d' h =
    let (written, begun, b) = begin_line-Begins libc error stamp text buffer 994 d h in
    let place : ℕ = 27 + length text in
    let line = line_start stamp error ++ text in
    let whole = length-line_start stamp error d.stamp_length in
    let sized = length-append (line_start stamp error) text in
    (
      λ fits.
          let b' =
            subst (λ t. Begins 1023 (line_start stamp error ++ t) written)
              (take-all 994 text (omega (arith, fits))) b in
          let (colon, e, c) =
            store-Begins (58 ∷ []) place b' (omega (arith, whole, sized))
              (omega (arith, whole, sized)) in
          let (spaced, f, g) =
            store-Begins (32 ∷ []) (suc place) c
              (omega (arith, whole, sized, length-append line (58 ∷ [])))
              (omega (arith, whole, sized, length-append line (58 ∷ []))) in
          let g' = subst (λ r. Begins 1023 r spaced) (append_assoc line (58 ∷ []) (32 ∷ [])) g in
          let head = line ++ 58 ∷ 32 ∷ [] in
          let head_string =
            no_nul-append line (58 ∷ 32 ∷ [])
              (no_nul-append (line_start stamp error) text
                (line_start-string stamp error d.stamp_string) d.text_string)
              refl in
          let (told, ended, t, u, v, w) =
            message-Begins libc errnum (place + 2) (992 - length text) stamp text message head
              spaced d d' g' head_string
              (omega (arith, whole, sized, length-append line (58 ∷ 32 ∷ [])))
              (omega (arith, fits)) in
          rw (log_errno, begun, e, f, limit_left (length text) fits, t, u, v) (ap some w),
      λ longer. elim (Option-cases (store place (58 ∷ []) written)) [
        | inl e ↦ rw (log_errno, begun, e) refl
        | inr (colon, e) ↦
            let kept = length-store place (58 ∷ []) written colon e in
            let beyond =
              store-beyond (suc place) 32 [] colon (omega (arith, longer, kept, b.sized)) in
            rw (log_errno, begun, e, beyond) refl
      ],
    )

-- A text of at most 992 characters is printed with the time, the word ERROR, a colon, as much of the
-- error's message as there is room for, and a line break. One of more than 994 is a store outside
-- the array. (At 993 and 994 the message has no room for its NUL.)
pub log_errno-prints :
    (libc : Libc) (errnum : ℕ) (stamp text message buffer : List ℕ)
    → Documented libc stamp text
    → DocumentedErrno libc errnum message
    → length buffer ≡ 1023
    → (length text ≤ 992) ⊎ (994 < length text)
    → let line = (line_start stamp error ++ text) ++ 58 ∷ 32 ∷ [] in
      log_errno libc errnum buffer ≡ (
        if leb (length text) 992
        then some ((line ++ take (992 - length text) message) ++ 10 ∷ [])
        else none)
log_errno-prints libc errnum stamp text message buffer d d' h (inl n) =
    let (fits, _) = log_errno_cases libc errnum stamp text message buffer d d' h in
    let e : leb (length text) 992 ≡ true = ground (arith, n) in rw e (fits n)
log_errno-prints libc errnum stamp text message buffer d d' h (inr n) =
    let (_, longer) = log_errno_cases libc errnum stamp text message buffer d d' h in
    let e : leb (length text) 992 ≡ false = ground (arith, n) in rw e (longer n)
