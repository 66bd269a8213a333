-- ===== src/Diagnostic/Debug/Reports.antt =====
-- What the hex tool reports of all the bytes that it read.
use Prim.Native.String.{String}
use ros2_dji_serial_bridge.Base.{
  ℕ, Bool, none, zero, suc, ◌≡◌, subst, List, Option, some, [], map, length, concat, All,
}
use ros2_dji_serial_bridge.Base.Bytes.{u64}
use ros2_dji_serial_bridge.Base.Int.{ℤ}
use ros2_dji_serial_bridge.Node.Start.{Termios, Port}
use ros2_dji_serial_bridge.Diagnostic.Interop.{fresh_parser}
use ros2_dji_serial_bridge.Diagnostic.Events.{cut, kept}
use ros2_dji_serial_bridge.Diagnostic.Frames.{Contains, line_of, frame_lines}
use ros2_dji_serial_bridge.Diagnostic.Refines.{parse_chunks}
use ros2_dji_serial_bridge.Diagnostic.Session.{
  IsPiece, stream, parse_chunks-Contains, parse_chunks-stream,
}
use ros2_dji_serial_bridge.Diagnostic.Options.{parse_arguments}
use ros2_dji_serial_bridge.Diagnostic.Debug.{Session, Round, Exit, DebugSystem, debug_main}
use ros2_dji_serial_bridge.Diagnostic.Debug.Outputs.{chunks_read}
use ros2_dji_serial_bridge.Diagnostic.Debug.Exits.{ExitTrue, asks_log, debug_main-ExitTrue}

-- All the bytes that were printed as read.
abbrev pub bytes_read : Session → List ℕ
bytes_read s = concat (chunks_read s.output)

-- The parser of a session that came to an end, or is still sending a frame.
abbrev pub Seen : Exit → (Session → Type 0) → Type 0
Seen (Exit.running_on s) P = P s
Seen (Exit.returned status port none) P = Unit {0}
Seen (Exit.returned status port (some s)) P = P s

ExitTrue-parsed :
    (logging : Bool) (e : Exit)
    → ExitTrue logging e
    → Seen e (λ s. s.parser ≡ parse_chunks fresh_parser (chunks_read s.output))
ExitTrue-parsed logging (Exit.running_on s) h = h.parsed
ExitTrue-parsed logging (Exit.returned status port none) h = tt
ExitTrue-parsed logging (Exit.returned zero port (some s)) h = h.1.0.parsed
ExitTrue-parsed logging (Exit.returned (suc status) port (some s)) h = h.1.parsed

Seen-map : (e : Exit) (P Q : Session → Type 0) → ((s : Session) → P s → Q s) → Seen e P → Seen e Q
Seen-map (Exit.running_on s) P Q f h = f s h
Seen-map (Exit.returned status port none) P Q f h = tt
Seen-map (Exit.returned status port (some s)) P Q f h = f s h

-- Frames by the tool's own rules stand in the bytes that were read, apart and in order; the `[FRAME OK]` lines are theirs, and
-- `frames` is their number modulo 2 ^ 64.
abbrev pub ReportsToolFrames : Session → Type 0
ReportsToolFrames s =
    (frames : List (List ℕ)) × Contains (bytes_read s) frames
    × (frame_lines s.parser.printed ≡ map line_of frames)
    × (s.parser.frames ≡ u64 (length frames))

parsed-ReportsToolFrames :
    (s : Session)
    → s.parser ≡ parse_chunks fresh_parser (chunks_read s.output)
    → ReportsToolFrames s
parsed-ReportsToolFrames s e = rw e (parse_chunks-Contains (chunks_read s.output))

module _ (make_raw : Termios → Termios) (defines : ℕ → Bool) (stoi : String → Option ℤ)
    (stod : String → Option ℕ) (period : ℕ → ℤ) where
  debug_main-parsed :
      (args : List String) (sys : DebugSystem) (rounds : List Round)
      → Seen
          (debug_main make_raw defines stoi stod period args sys rounds)
          (λ s. s.parser ≡ parse_chunks fresh_parser (chunks_read s.output))
  debug_main-parsed args sys rounds =
      ExitTrue-parsed (asks_log (parse_arguments stoi stod args)) _
        (debug_main-ExitTrue make_raw defines stoi stod period args sys rounds)

  -- However the hex tool ends after a session, with any status, and also while it is still sending a
  -- frame: its `[FRAME OK]` lines are those of frames that stand in the bytes that it printed as read,
  -- apart from each other and in that order, and `frames` is their number modulo 2 ^ 64. A frame is one by
  -- the tool's own rules: at most 4096 bytes, with its CRC-8 and its CRC-16 of 16 table entries, which
  -- is not the CRC-16 of the wire.
  pub debug_main-ReportsToolFrames :
      (args : List String) (sys : DebugSystem) (rounds : List Round)
      → Seen (debug_main make_raw defines stoi stod period args sys rounds) ReportsToolFrames
  debug_main-ReportsToolFrames args sys rounds =
      Seen-map (debug_main make_raw defines stoi stod period args sys rounds)
        (λ s. s.parser ≡ parse_chunks fresh_parser (chunks_read s.output)) ReportsToolFrames
        parsed-ReportsToolFrames (debug_main-parsed args sys rounds)

  -- When the hex tool has ended with a session whose bytes read are whole frames by the tool's own rules
  -- (at most 4096 bytes each, with its CRC-8 and its CRC-16 of 16 table entries, which is not that of the
  -- wire), with noise between them that has no frame head byte, it has printed a `[FRAME OK]` line for every frame, in order, and
  -- no parser's line of another kind but those on skipped bytes: `frames` is their number modulo
  -- 2 ^ 64, no header or frame is counted as wrong, and nothing waits. The reads may be cut anywhere.
  pub debug_main-stream :
      (args : List String) (sys : DebugSystem) (rounds : List Round)
      → (status : ℕ) (port : Port) (s : Session) (pieces : List (List ℕ × List ℕ))
      → debug_main make_raw defines stoi stod period args sys rounds
        ≡ Exit.returned status port (some s)
      → All IsPiece pieces
      → bytes_read s ≡ stream pieces
      → (kept s.parser.printed ≡ map (λ p. line_of p.1) pieces)
        × (s.parser.frames ≡ u64 (length pieces))
        × (s.parser.bad_crc8 ≡ 0)
        × (s.parser.bad_crc16 ≡ 0)
        × (cut s.parser.buffer ≡ [])
  debug_main-stream args sys rounds status port s pieces ended good same =
      let parsed : s.parser ≡ parse_chunks fresh_parser (chunks_read s.output) =
        subst (λ e. Seen e (λ t. t.parser ≡ parse_chunks fresh_parser (chunks_read t.output))) ended
          (debug_main-parsed args sys rounds) in
      rw parsed (parse_chunks-stream pieces (chunks_read s.output) good same)
