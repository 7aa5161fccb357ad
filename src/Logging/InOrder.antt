-- ===== src/Logging/InOrder.antt =====
-- What a program of greenev/logging.c or of singlev/src/logging.c prints in all.
use striga2_pocs.Base.{
  ℕ, ◌-◌, ◌≤◌, ◌≡◌, refl, inl, Option, none, some, List, [], ◌∷◌, ◌++◌, map, length, arith, leb,
  true,
}
use striga2_pocs.Logging.{Level, debug, warning, error, info, log_at, log_errno}
use striga2_pocs.Logging.Lines.{take, Documented, line_start, log_at-prints}
use striga2_pocs.Logging.Errno.{DocumentedErrno, log_errno-prints}
use striga2_pocs.Logging.Stream.{
  Output, printed, flushed, chosen, Kind, at, errno, Message, say_all, logged,
}
use striga2_pocs.Greenev.Logging as greenev
use striga2_pocs.Singlev.Logging as singlev

-- A message whose line the function that is called for it can hold.
abbrev pub Fits : Kind → Message → Type 0
Fits (at level) m =
    Documented m.libc m.stamp m.text × (length m.buffer ≡ 511) × (length m.text ≤ 482)
Fits (errno errnum) m =
    Documented m.libc m.stamp m.text
    × DocumentedErrno m.libc errnum m.message
    × (length m.buffer ≡ 1023)
    × (length m.text ≤ 992)

abbrev pub AllFit : List Message → Type 0
AllFit [] = Unit
AllFit (m ∷ ms) = Fits m.kind m × AllFit ms

-- The line: the time, the word, the text, after `: ` the message of the error, and a line break.
abbrev pub line_for : Kind → Message → List ℕ
line_for (at level) m = (line_start m.stamp level ++ m.text) ++ 10 ∷ []
line_for (errno errnum) m =
    (((line_start m.stamp error ++ m.text) ++ 58 ∷ 32 ∷ []) ++ take (992 - length m.text) m.message)
    ++ 10 ∷ []

abbrev pub line_of : Message → List ℕ
line_of m = line_for m.kind m

module _ (stderr : ℕ) (logging_stream : Option ℕ) where
  abbrev out : Message → Output
  out m = printed (chosen stderr logging_stream) (line_of m)

  at-line :
      (level : Level) (m : Message)
      → Fits (at level) m
      → log_at m.libc level m.buffer ≡ some (line_for (at level) m)
  at-line level m (d, b, n) =
      let fits : leb (length m.text) 482 ≡ true = ground (arith, n) in
      let e = log_at-prints m.libc level m.stamp m.text m.buffer d b in rw fits at e

  errno-line :
      (errnum : ℕ) (m : Message)
      → Fits (errno errnum) m
      → log_errno m.libc errnum m.buffer ≡ some (line_for (errno errnum) m)
  errno-line errnum m (d, d', b, n) =
      let fits : leb (length m.text) 992 ≡ true = ground (arith, n) in
      let e = log_errno-prints m.libc errnum m.stamp m.text m.message m.buffer d d' b (inl n) in
      rw fits at e

  -- One call, in both programs.
  say-prints :
      (kind : Kind) (m : Message)
      → m.kind ≡ kind
      → Fits kind m
      → (greenev.say stderr logging_stream m
          ≡ some (printed (chosen stderr logging_stream) (line_for kind m)))
        × (singlev.say stderr logging_stream m
            ≡ some (printed (chosen stderr logging_stream) (line_for kind m)))
  unfolding greenev.say singlev.say
  say-prints (at debug) m e f = rw (e, at-line debug m f) (refl, refl)
  say-prints (at warning) m e f = rw (e, at-line warning m f) (refl, refl)
  say-prints (at error) m e f = rw (e, at-line error m f) (refl, refl)
  say-prints (at info) m e f = rw (e, at-line info m f) (refl, refl)
  say-prints (errno errnum) m e f = rw (e, errno-line errnum m f) (refl, refl)

  say_all-prints :
      (ms : List Message)
      → AllFit ms
      → (say_all (greenev.say stderr) logging_stream ms ≡ some (map out ms))
        × (say_all (singlev.say stderr) logging_stream ms ≡ some (map out ms))
  unfolding say_all
  say_all-prints [] f = (refl, refl)
  say_all-prints (m ∷ ms) (f, fs) =
      let (g, s) = say-prints m.kind m refl f in
      let (gs, ss) = say_all-prints ms fs in (rw (g, say_all, gs) refl, rw (s, say_all, ss) refl)

-- Let a program log any number of messages, each short enough for the array of its function: between
-- `logging_init` and `logging_finish`, or with no `logging_init` before them. What it prints are
-- their lines, one for each message, in order and whole, all to stderr; and in the end stderr is
-- flushed, where there was a `logging_init`. That holds of greenev and of singlev. (libc does what
-- its manuals say.)
pub logged-in_order :
    (stderr : ℕ) (ms : List Message)
    → AllFit ms
    → let outputs = map (λ m. printed stderr (line_of m)) ms in
      (logged (greenev.logging_init stderr) greenev.logging_finish (greenev.say stderr) ms
        ≡ some (outputs ++ flushed (some stderr) ∷ []))
      × (logged (singlev.logging_init stderr) singlev.logging_finish (singlev.say stderr) ms
          ≡ some (outputs ++ flushed (some stderr) ∷ []))
      × (say_all (greenev.say stderr) none ms ≡ some outputs)
      × (say_all (singlev.say stderr) none ms ≡ some outputs)
unfolding logged greenev.logging_init singlev.logging_init greenev.logging_finish
    singlev.logging_finish
logged-in_order stderr ms f =
    let (g, s) = say_all-prints stderr (some stderr) ms f in
    let (g', s') = say_all-prints stderr none ms f in
    (rw (g, logged) refl, rw (s, logged) refl, g', s')
