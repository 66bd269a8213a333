-- ===== src/Diagnostic/Events.antt =====
-- What the frame parser does at a frame head, as a function of the bytes alone, and the parse of a
-- whole input that this gives.
use ros2_dji_serial_bridge.Base.{
  ℕ, ◌+◌, not, List, [], ◌∷◌, Option, none, some, length, take, drop, ltb, ◌==◌, if◌then◌else◌, ◌≡◌,
}
use ros2_dji_serial_bridge.Base.Bytes.{byte_at}
use ros2_dji_serial_bridge.Diagnostic.{Line, crc8, crc16, read16, before_head}

-- From the first frame head on.
unfoldable pub cut : List ℕ → List ℕ
cut bytes = drop (before_head bytes) bytes

-- The line that bytes at a frame head give, and how many of them it takes; nothing while they wait for
-- the rest of a header or of a frame.
unfoldable pub event : List ℕ → Option (Line × ℕ)
event bytes =
    let len = read16 bytes 1 in
    let calculated = crc16 (take (7 + len) bytes) in
    if ltb (length bytes) 7
    then none
    else if not (crc8 (take 4 bytes) == byte_at bytes 4)
    then some (Line.bad_crc8 (byte_at bytes 4) (crc8 (take 4 bytes)) (take 7 bytes), 1)
    else if ltb 4096 (9 + len)
    then some (Line.bad_length (9 + len), 1)
    else if ltb (length bytes) (9 + len)
    then none
    else if not (read16 bytes (7 + len) == calculated)
    then some (Line.bad_crc16 (read16 bytes (7 + len)) calculated (take (9 + len) bytes), 1)
    else some
        (Line.frame_ok (byte_at bytes 3) (read16 bytes 5) len (take len (drop 7 bytes)), 9 + len)

-- The lines other than those on skipped bytes.
unfoldable pub kept : List Line → List Line
kept [] = []
kept (Line.desync size ∷ lines) = kept lines
kept (Line.garbage bytes ∷ lines) = kept lines
kept (line ∷ lines) = line ∷ kept lines

-- The parse of an input: its lines, and the bytes that wait.
pub data Parse : List ℕ → List Line → List ℕ → Type 0 where
  waits : {bytes : List ℕ} → event (cut bytes) ≡ none → Parse bytes [] (cut bytes)
  reports :
      {bytes : List ℕ} {line : Line} {n : ℕ} {lines : List Line} {rest : List ℕ}
      → event (cut bytes) ≡ some (line, n)
      → Parse (drop n (cut bytes)) lines rest
      → Parse bytes (line ∷ lines) rest
