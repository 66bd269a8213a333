-- ===== src/Diagnostic/Session.antt =====
-- `FrameParser::append` over all the reads of a session: what it reports of the whole input.
use ros2_dji_serial_bridge.Base.{
  concat, ℕ, suc, ◌+◌, ◌≢◌, List, [], ◌∷◌, ◌++◌, length, ◌≡◌, refl, sym, ap, ◌∙◌, subst, All, arith,
  length-map, drop-append_all, map,
}
use ros2_dji_serial_bridge.Base.Bytes.{u64}
use ros2_dji_serial_bridge.Diagnostic.{Line, FrameParser, before_head}
use ros2_dji_serial_bridge.Diagnostic.Counters.{kinds}
use ros2_dji_serial_bridge.Diagnostic.Events.{cut, event, kept, Parse}
use ros2_dji_serial_bridge.Diagnostic.Parses.{
  Parse-unique, Parse-nothing, event-append, cut-head, cut-other,
}
use ros2_dji_serial_bridge.Diagnostic.Interop.{fresh_parser}
use ros2_dji_serial_bridge.Diagnostic.Chunks.{IsWaiting, parse_chunks-IsCounted, kinds-kept}
use ros2_dji_serial_bridge.Diagnostic.Refines.{parse_chunks, parse_chunks-Parsed}
use ros2_dji_serial_bridge.Diagnostic.Frames.{
  IsToolFrame, line_of, IsToolFrame-event, Contains, frame_lines, Parse-Contains,
}

frame_lines-kept : (lines : List Line) → frame_lines (kept lines) ≡ frame_lines lines
unfolding frame_lines kept
frame_lines-kept [] = refl
frame_lines-kept (Line.frame_ok a b c d ∷ lines) = rw (frame_lines-kept lines)
frame_lines-kept (Line.desync s ∷ lines) = frame_lines-kept lines
frame_lines-kept (Line.garbage s ∷ lines) = frame_lines-kept lines
frame_lines-kept (Line.bad_crc8 a b c ∷ lines) = frame_lines-kept lines
frame_lines-kept (Line.bad_crc16 a b c ∷ lines) = frame_lines-kept lines
frame_lines-kept (Line.bad_length a ∷ lines) = frame_lines-kept lines

length-frame_lines : (lines : List Line) → length (frame_lines lines) ≡ (kinds lines).0
unfolding frame_lines kinds
length-frame_lines [] = refl
length-frame_lines (Line.frame_ok a b c d ∷ lines) = omega (arith, length-frame_lines lines)
length-frame_lines (Line.desync s ∷ lines) = omega (arith, length-frame_lines lines)
length-frame_lines (Line.garbage s ∷ lines) = omega (arith, length-frame_lines lines)
length-frame_lines (Line.bad_crc8 a b c ∷ lines) = omega (arith, length-frame_lines lines)
length-frame_lines (Line.bad_crc16 a b c ∷ lines) = omega (arith, length-frame_lines lines)
length-frame_lines (Line.bad_length a ∷ lines) = omega (arith, length-frame_lines lines)

pub fresh_parser-IsWaiting : IsWaiting fresh_parser
unfolding kinds event cut before_head
fresh_parser-IsWaiting = record {
  counted = record { frames = refl; crc8 = refl; crc16 = refl; desyncs = refl };
  waits = refl;
}

-- A parser that starts on the reads `chunks` parses all that they hold.
session :
    (chunks : List (List ℕ))
    → (lines : List Line) × Parse
        (concat chunks)
        lines
        (cut (parse_chunks fresh_parser chunks).buffer)
      × (kept (parse_chunks fresh_parser chunks).printed ≡ lines)
unfolding kept
session chunks = parse_chunks-Parsed chunks fresh_parser fresh_parser-IsWaiting.waits

-- From its start on the parser reports only frames: the `[FRAME OK]` lines are those of frames that
-- stand in the bytes read, apart from each other and in that order, and `frames` counts them modulo
-- 2 ^ 64.
pub parse_chunks-Contains :
    (chunks : List (List ℕ))
    → (frames : List (List ℕ)) × Contains (concat chunks) frames
      × (frame_lines (parse_chunks fresh_parser chunks).printed ≡ map line_of frames)
      × ((parse_chunks fresh_parser chunks).frames ≡ u64 (length frames))
parse_chunks-Contains chunks =
    let (lines, parse, said) = session chunks in
    let (frames, there, same) = Parse-Contains parse in
    let q : FrameParser = parse_chunks fresh_parser chunks in
    let counted = parse_chunks-IsCounted chunks fresh_parser fresh_parser-IsWaiting.counted in
    let alike : frame_lines q.printed ≡ map line_of frames =
      sym (frame_lines-kept q.printed) ∙ ap frame_lines said ∙ sym same in
    (
      frames,
      there,
      alike,
      omega (
        arith,
        counted.frames,
        length-frame_lines q.printed,
        ap length alike,
        length-map line_of frames,
      ),
    )

-- Noise without a frame head, and a frame by the tool's rules.
pub record IsPiece (piece : List ℕ × List ℕ) : Type 0 where
  pub quiet : All (λ b. b ≢ 0xa5) piece.0
  pub frame : IsToolFrame piece.1

unfoldable pub stream : List (List ℕ × List ℕ) → List ℕ
stream [] = []
stream ((noise, frame) ∷ pieces) = noise ++ (frame ++ stream pieces)

cut-quiet : (noise bytes : List ℕ) → All (λ b. b ≢ 0xa5) noise → cut (noise ++ bytes) ≡ cut bytes
cut-quiet [] bytes h = refl
cut-quiet (b ∷ noise) bytes h =
    cut-other b (noise ++ bytes) (ground arith) ∙ cut-quiet noise bytes h.1

cut-IsToolFrame : (f bytes : List ℕ) → IsToolFrame f → cut (f ++ bytes) ≡ f ++ bytes
cut-IsToolFrame [] bytes h = absurd (omega (arith, h.head))
cut-IsToolFrame (b ∷ f) bytes h = cut-head b (f ++ bytes) (ground (arith, h.head))

stream-Parse :
    (pieces : List (List ℕ × List ℕ))
    → All IsPiece pieces
    → Parse (stream pieces) (map (λ p. line_of p.1) pieces) []
unfolding stream
stream-Parse [] h = Parse-nothing
stream-Parse ((noise, frame) ∷ pieces) h =
    let rest = stream pieces in
    let same : cut (noise ++ (frame ++ rest)) ≡ frame ++ rest =
      cut-quiet noise (frame ++ rest) h.0.quiet ∙ cut-IsToolFrame frame rest h.0.frame in
    Parse.reports {n = length frame}
      (rw same (
        event-append frame rest (line_of frame) (length frame) (IsToolFrame-event frame h.0.frame)))
      (rw (same, drop-append_all (length frame) frame rest refl) (stream-Parse pieces h.1))

-- The lines on pieces are all of frames.
kinds-pieces :
    (pieces : List (List ℕ × List ℕ))
    → kinds (map (λ p. line_of p.1) pieces) ≡ (length pieces, 0, 0, 0)
unfolding kinds
kinds-pieces [] = refl
kinds-pieces (piece ∷ pieces) =
    let next : 1 + length pieces ≡ suc (length pieces) = omega arith in
    rw (kinds-pieces pieces) (ap (λ n. (n, 0, 0, 0)) next)

-- When the bytes read are whole frames with noise between them that has no frame head byte, the
-- parser prints a `[FRAME OK]` line for every frame, in order, and no line of another kind but those
-- on skipped bytes: `frames` is their number modulo 2 ^ 64, the other two counters are 0, and nothing
-- waits. The reads may be cut anywhere.
pub parse_chunks-stream :
    (pieces : List (List ℕ × List ℕ)) (chunks : List (List ℕ))
    → All IsPiece pieces
    → concat chunks ≡ stream pieces
    → (kept (parse_chunks fresh_parser chunks).printed ≡ map (λ p. line_of p.1) pieces)
      × ((parse_chunks fresh_parser chunks).frames ≡ u64 (length pieces))
      × ((parse_chunks fresh_parser chunks).bad_crc8 ≡ 0)
      × ((parse_chunks fresh_parser chunks).bad_crc16 ≡ 0)
      × (cut (parse_chunks fresh_parser chunks).buffer ≡ [])
parse_chunks-stream pieces chunks good same =
    let (lines, parse, said) = session chunks in
    let q : FrameParser = parse_chunks fresh_parser chunks in
    let (alike, left) =
      Parse-unique (subst (λ b. Parse b lines (cut q.buffer)) same parse)
        (stream-Parse pieces good) in
    let counted = parse_chunks-IsCounted chunks fresh_parser fresh_parser-IsWaiting.counted in
    let of_kept = kinds-kept q.printed in
    let all = ap kinds (said ∙ alike) ∙ kinds-pieces pieces in
    (
      said ∙ alike,
      omega (arith, counted.frames, of_kept, ap (λ k. k.0) all),
      omega (arith, counted.crc8, of_kept, ap (λ k. k.1) all),
      omega (arith, counted.crc16, of_kept, ap (λ k. k.2) all),
      left,
    )
