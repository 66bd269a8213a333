-- ===== src/Diagnostic/Counters.antt =====
-- The parser's counters against the lines that it prints.
use ros2_dji_serial_bridge.Base.{ℕ, zero, suc, ◌+◌, ◌≡◌, arith, List, [], ◌∷◌, ◌++◌, length}
use ros2_dji_serial_bridge.Base.Bytes.{u64}
use ros2_dji_serial_bridge.Diagnostic.{
  Line, FrameParser, ParserTurn, check_frame, at_head, skip_garbage, parser_turn, parser_loop,
  append,
}

-- How many lines of each counted kind: frames, wrong headers, wrong frames, and lost syncs.
abbrev pub Kinds : Type 0
Kinds = ℕ × ℕ × ℕ × ℕ

abbrev kind : Line → Kinds
kind (Line.frame_ok seq msg len payload) = (1, 0, 0, 0)
kind (Line.bad_crc8 received calculated bytes) = (0, 1, 0, 0)
kind (Line.bad_crc16 received calculated bytes) = (0, 0, 1, 0)
kind (Line.desync size) = (0, 0, 0, 1)
kind (Line.garbage bytes) = (0, 0, 0, 1)
kind (Line.bad_length total) = (0, 0, 0, 0)

unfoldable pub kinds : List Line → Kinds
kinds [] = (0, 0, 0, 0)
kinds (line ∷ lines) =
    let (a, b, c, d) = kind line in let (i, j, k, l) = kinds lines in (a + i, b + j, c + k, d + l)

kinds-append :
    (xs ys : List Line)
    → ((kinds (xs ++ ys)).0 ≡ (kinds xs).0 + (kinds ys).0)
      × ((kinds (xs ++ ys)).1 ≡ (kinds xs).1 + (kinds ys).1)
      × ((kinds (xs ++ ys)).2 ≡ (kinds xs).2 + (kinds ys).2)
      × ((kinds (xs ++ ys)).3 ≡ (kinds xs).3 + (kinds ys).3)
unfolding kinds
kinds-append [] ys = omega arith
kinds-append (x ∷ xs) ys = omega (arith, kinds-append xs ys)

-- Each counter is the number of its lines, modulo 2 ^ 64.
pub record IsCounted (p : FrameParser) : Type 0 where
  pub frames : p.frames ≡ u64 (kinds p.printed).0
  pub crc8 : p.bad_crc8 ≡ u64 (kinds p.printed).1
  pub crc16 : p.bad_crc16 ≡ u64 (kinds p.printed).2
  pub desyncs : p.desyncs ≡ u64 (kinds p.printed).3

abbrev TurnCounted : ParserTurn → Type 0
TurnCounted (ParserTurn.again q) = IsCounted q
TurnCounted (ParserTurn.leave q) = IsCounted q

check_frame-IsCounted : (len : ℕ) (p : FrameParser) → IsCounted p → TurnCounted (check_frame len p)
unfolding check_frame kinds
check_frame-IsCounted len p h = grind (arith, kinds-append)

at_head-IsCounted : (p : FrameParser) → IsCounted p → TurnCounted (at_head p)
unfolding at_head kinds
at_head-IsCounted p h = grind (arith, kinds-append, check_frame-IsCounted)

skip_garbage-IsCounted : (p : FrameParser) → IsCounted p → IsCounted (skip_garbage p)
unfolding skip_garbage kinds
skip_garbage-IsCounted p h = grind (arith, kinds-append)

parser_turn-IsCounted : (p : FrameParser) → IsCounted p → TurnCounted (parser_turn p)
unfolding parser_turn kinds
parser_turn-IsCounted p h =
    grind (arith, kinds-append, at_head-IsCounted (skip_garbage p), skip_garbage-IsCounted p)

after_turn-IsCounted :
    (fuel : ℕ) (r : ParserTurn)
    → TurnCounted r
    → ((q : FrameParser) → IsCounted q → IsCounted (parser_loop fuel q))
    → IsCounted (elim r [ ParserTurn.again q ↦ parser_loop fuel q | ParserTurn.leave q ↦ q ])
after_turn-IsCounted fuel (ParserTurn.again q) h goes_on = goes_on q h
after_turn-IsCounted fuel (ParserTurn.leave q) h goes_on = h

parser_loop-IsCounted : (fuel : ℕ) (p : FrameParser) → IsCounted p → IsCounted (parser_loop fuel p)
unfolding parser_loop
parser_loop-IsCounted zero p h = h
parser_loop-IsCounted (suc fuel) p h =
    after_turn-IsCounted fuel (parser_turn p) (parser_turn-IsCounted p h)
      (λ q. parser_loop-IsCounted fuel q)

-- Appending bytes keeps each of the parser's four counters equal, modulo 2 ^ 64, to the number of the
-- lines that it has printed about such events: frames, CRC-8 failures, CRC-16 failures, lost syncs.
pub append-IsCounted : (bytes : List ℕ) (p : FrameParser) → IsCounted p → IsCounted (append bytes p)
unfolding append
append-IsCounted bytes p h =
    let loaded : FrameParser = record p { buffer = p.buffer ++ bytes } in
    parser_loop-IsCounted (suc (length loaded.buffer)) loaded
      (record { frames = h.frames; crc8 = h.crc8; crc16 = h.crc16; desyncs = h.desyncs })
