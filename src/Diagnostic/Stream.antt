-- ===== src/Diagnostic/Stream.antt =====
-- The frame parser against the parse of its whole input.
use ros2_dji_serial_bridge.Base.{
  ℕ, ◌+◌, List, [], ◌∷◌, ◌++◌, Option, none, some, length, Bool-cases, inl, inr, ltb→lt, ==_iff,
  length-drop, length_zero, ◌≤◌, take, drop, ltb, ◌==◌, ◌≡◌, refl, ◌<◌, arith, sym, ap, ◌∙◌,
  append-nil,
}
use ros2_dji_serial_bridge.Base.Bytes.{u64}
use ros2_dji_serial_bridge.Diagnostic.{
  Line, FrameParser, ParserTurn, before_head, print, erase, check_frame, at_head, skip_garbage,
  parser_turn,
}
use ros2_dji_serial_bridge.Diagnostic.Parser.{before_head-drop, lost_sync, skip_garbage_head}
use ros2_dji_serial_bridge.Diagnostic.Events.{cut, event, kept}

-- What a turn does with the bytes from the head on and with the lines kept so far.
abbrev pub Agrees : List ℕ → List Line → ParserTurn → Type 0
Agrees bytes lines (ParserTurn.again q) =
    (line : Line) × (n : ℕ) × (event bytes ≡ some (line, n))
    × (q.buffer ≡ drop n bytes)
    × (kept q.printed ≡ lines ++ (line ∷ []))
Agrees bytes lines (ParserTurn.leave q) =
    (event bytes ≡ none) × (cut q.buffer ≡ bytes) × (kept q.printed ≡ lines)

kept-append : (xs ys : List Line) → kept (xs ++ ys) ≡ kept xs ++ kept ys
unfolding kept
kept-append [] ys = refl
kept-append (Line.desync s ∷ xs) ys = kept-append xs ys
kept-append (Line.garbage s ∷ xs) ys = kept-append xs ys
kept-append (Line.bad_crc8 a b c ∷ xs) ys = rw (kept-append xs ys)
kept-append (Line.bad_crc16 a b c ∷ xs) ys = rw (kept-append xs ys)
kept-append (Line.bad_length a ∷ xs) ys = rw (kept-append xs ys)
kept-append (Line.frame_ok a b c d ∷ xs) ys = rw (kept-append xs ys)

-- The counter of a line.
abbrev tally : Line → FrameParser → FrameParser
tally (Line.bad_crc8 a b c) p = record p { bad_crc8 = u64 (p.bad_crc8 + 1) }
tally (Line.bad_crc16 a b c) p = record p { bad_crc16 = u64 (p.bad_crc16 + 1) }
tally (Line.frame_ok a b c d) p = record p { frames = u64 (p.frames + 1) }
tally _ p = p

abbrev react : FrameParser → Option (Line × ℕ) → ParserTurn
react p none = ParserTurn.leave p
react p (some (line, n)) = ParserTurn.again (erase n (print line (tally line p)))

at_head-event : (p : FrameParser) → at_head p ≡ react p (event p.buffer)
unfolding at_head check_frame event
at_head-event p = ground arith

event-kept :
    (bytes : List ℕ) (line : Line) (n : ℕ)
    → event bytes ≡ some (line, n)
    → kept (line ∷ []) ≡ line ∷ []
unfolding event kept
event-kept bytes line n e = ground arith

tally-printed : (line : Line) (p : FrameParser) → (tally line p).printed ≡ p.printed
tally-printed line p = ground arith

tally-buffer : (line : Line) (p : FrameParser) → (tally line p).buffer ≡ p.buffer
tally-buffer line p = ground arith

react-Agrees :
    (o : Option (Line × ℕ)) (p : FrameParser)
    → event p.buffer ≡ o
    → cut p.buffer ≡ p.buffer
    → Agrees p.buffer (kept p.printed) (react p o)
react-Agrees none p e same = (e, same, refl)
react-Agrees (some (line, n)) p e same = (
  line,
  n,
  e,
  ap (drop n) (tally-buffer line p),
  rw (tally-printed line p) (
      kept-append p.printed (line ∷ [])
      ∙ ap (λ l. kept p.printed ++ l) (event-kept p.buffer line n e)),
)

at_head-Agrees :
    (p : FrameParser) → before_head p.buffer ≡ 0 → Agrees p.buffer (kept p.printed) (at_head p)
unfolding cut
at_head-Agrees p h =
    rw (at_head-event p) (react-Agrees (event p.buffer) p refl (ap (λ n. drop n p.buffer) h))

-- Skipped bytes leave the rest of the input and the kept lines as they were.
skip_garbage-cut : (p : FrameParser) → (skip_garbage p).buffer ≡ cut p.buffer
unfolding skip_garbage cut
skip_garbage-cut p = ground arith

kept-garbage :
    (lines : List Line) (bytes : List ℕ) → kept (lines ++ (Line.garbage bytes ∷ [])) ≡ kept lines
unfolding kept
kept-garbage lines bytes = kept-append lines (Line.garbage bytes ∷ []) ∙ append-nil (kept lines)

kept-desync : (lines : List Line) (n : ℕ) → kept (lines ++ (Line.desync n ∷ [])) ≡ kept lines
unfolding kept
kept-desync lines n = kept-append lines (Line.desync n ∷ []) ∙ append-nil (kept lines)

skip_garbage-kept : (p : FrameParser) → kept (skip_garbage p).printed ≡ kept p.printed
unfolding skip_garbage
skip_garbage-kept p = ground (arith, kept-garbage p.printed (take (before_head p.buffer) p.buffer))

pub cut-cut : (bytes : List ℕ) → cut (cut bytes) ≡ cut bytes
unfolding cut
cut-cut bytes = ap (λ n. drop n (cut bytes)) (before_head-drop bytes)

event-short : (bytes : List ℕ) → length bytes < 7 → event bytes ≡ none
unfolding event
event-short bytes h = ground arith

cut-lost : (bytes : List ℕ) → before_head bytes ≡ length bytes → cut bytes ≡ []
unfolding cut
cut-lost bytes h = length_zero (cut bytes) (omega (arith, length-drop (before_head bytes) bytes))

pub length-cut : (bytes : List ℕ) → length (cut bytes) ≤ length bytes
unfolding cut
length-cut bytes = omega (arith, length-drop (before_head bytes) bytes)

lost_turn-Agrees :
    (p : FrameParser)
    → before_head p.buffer ≡ length p.buffer
    → Agrees (cut p.buffer) (kept p.printed) (ParserTurn.leave (lost_sync p))
unfolding cut before_head
lost_turn-Agrees p h =
    let nothing = cut-lost p.buffer h in
    (
      event-short (cut p.buffer) (omega (arith, ap length nothing)),
      sym nothing,
      kept-desync p.printed (length p.buffer),
    )

found_turn-Agrees :
    (p : FrameParser) → Agrees (cut p.buffer) (kept p.printed) (at_head (skip_garbage p))
found_turn-Agrees p =
    rw (sym (skip_garbage-cut p), sym (skip_garbage-kept p))
      (at_head-Agrees (skip_garbage p) (skip_garbage_head p))

pub parser_turn-Agrees : (p : FrameParser) → Agrees (cut p.buffer) (kept p.printed) (parser_turn p)
unfolding parser_turn
parser_turn-Agrees p = elim (Bool-cases (ltb (length p.buffer) 7)) [
  | inl short ↦
      let less = length-cut p.buffer in
      rw short (event-short (cut p.buffer) (omega (arith, ltb→lt _ 7 short)), refl, refl)
  | inr long ↦ elim (Bool-cases (before_head p.buffer == length p.buffer)) [
    | inl lost ↦
        rw (long, lost)
          (lost_turn-Agrees p ((==_iff (before_head p.buffer) (length p.buffer)).0 lost))
    | inr found ↦ rw (long, found) (found_turn-Agrees p)
  ]
]
