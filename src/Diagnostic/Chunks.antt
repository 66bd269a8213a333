-- ===== src/Diagnostic/Chunks.antt =====
-- The reads of the frame parser may be cut in any way: it reports the same but for skipped bytes.
use ros2_dji_serial_bridge.Base.{
  concat, ℕ, List, [], ◌∷◌, ◌++◌, none, ◌≡◌, refl, sym, ap, ◌∙◌, subst, arith,
}
use ros2_dji_serial_bridge.Diagnostic.{Line, FrameParser, append}
use ros2_dji_serial_bridge.Diagnostic.Counters.{IsCounted, kinds, append-IsCounted}
use ros2_dji_serial_bridge.Diagnostic.Events.{cut, event, kept, Parse}
use ros2_dji_serial_bridge.Diagnostic.Parses.{Parse-unique}
use ros2_dji_serial_bridge.Diagnostic.Refines.{parse_chunks, parse_chunks-Parsed}

pub parse_chunks-IsCounted :
    (chunks : List (List ℕ)) (p : FrameParser) → IsCounted p → IsCounted (parse_chunks p chunks)
parse_chunks-IsCounted [] p h = h
parse_chunks-IsCounted (chunk ∷ chunks) p h =
    parse_chunks-IsCounted chunks (append chunk p) (append-IsCounted chunk p h)

pub kinds-kept :
    (lines : List Line)
    → ((kinds (kept lines)).0 ≡ (kinds lines).0)
      × ((kinds (kept lines)).1 ≡ (kinds lines).1)
      × ((kinds (kept lines)).2 ≡ (kinds lines).2)
unfolding kinds kept
kinds-kept [] = (refl, refl, refl)
kinds-kept (Line.desync s ∷ lines) = omega (arith, kinds-kept lines)
kinds-kept (Line.garbage s ∷ lines) = omega (arith, kinds-kept lines)
kinds-kept (Line.bad_crc8 a b c ∷ lines) = omega (arith, kinds-kept lines)
kinds-kept (Line.bad_crc16 a b c ∷ lines) = omega (arith, kinds-kept lines)
kinds-kept (Line.bad_length a ∷ lines) = omega (arith, kinds-kept lines)
kinds-kept (Line.frame_ok a b c d ∷ lines) = omega (arith, kinds-kept lines)

-- The same lines but those on skipped bytes, the same counters but that of lost syncs, and the same
-- bytes that wait from the frame head on.
pub record SameButSkips (p q : FrameParser) : Type 0 where
  pub lines : kept p.printed ≡ kept q.printed
  pub frames : p.frames ≡ q.frames
  pub bad_crc8 : p.bad_crc8 ≡ q.bad_crc8
  pub bad_crc16 : p.bad_crc16 ≡ q.bad_crc16
  pub waiting : cut p.buffer ≡ cut q.buffer

counted-SameButSkips :
    (p q : FrameParser)
    → IsCounted p
    → IsCounted q
    → kept p.printed ≡ kept q.printed
    → cut p.buffer ≡ cut q.buffer
    → SameButSkips p q
counted-SameButSkips p q hp hq same waiting =
    let ofp = kinds-kept p.printed in
    let ofq = kinds-kept q.printed in
    record {
      lines = same;
      frames = omega (arith, ofp, ofq, hp.frames, hq.frames, ap (λ l. (kinds l).0) same);
      bad_crc8 = omega (arith, ofp, ofq, hp.crc8, hq.crc8, ap (λ l. (kinds l).1) same);
      bad_crc16 = omega (arith, ofp, ofq, hp.crc16, hq.crc16, ap (λ l. (kinds l).2) same);
      waiting = waiting;
    }

-- A parser that waits for bytes: with its counters right and nothing to report from what it holds.
pub record IsWaiting (p : FrameParser) : Type 0 where
  pub counted : IsCounted p
  pub waits : event (cut p.buffer) ≡ none

-- However the same bytes are cut into two sequences of reads, a parser that waits prints the same lines
-- in the same order but for those on skipped bytes (DESYNC and GARBAGE), counts the same frames, failed
-- CRC-8s and failed CRC-16s, and holds the same bytes from the frame head on. The skipped bytes are
-- reported by read, so those lines and the count of lost syncs do depend on the cuts.
pub parse_chunks-SameButSkips :
    (xs ys : List (List ℕ)) (p : FrameParser)
    → IsWaiting p
    → concat xs ≡ concat ys
    → SameButSkips (parse_chunks p xs) (parse_chunks p ys)
parse_chunks-SameButSkips xs ys p h same =
    let (lines, parse, said) = parse_chunks-Parsed xs p h.waits in
    let (others, again, told) = parse_chunks-Parsed ys p h.waits in
    let (alike, left) = Parse-unique parse (
      subst (λ b. Parse (p.buffer ++ b) others (cut (parse_chunks p ys).buffer)) (sym same)
        again) in
    counted-SameButSkips (parse_chunks p xs) (parse_chunks p ys)
      (parse_chunks-IsCounted xs p h.counted) (parse_chunks-IsCounted ys p h.counted)
      (said ∙ ap (λ l. kept p.printed ++ l) alike ∙ sym told) left
