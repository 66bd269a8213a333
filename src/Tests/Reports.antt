-- ===== src/Tests/Reports.antt =====
-- What the frame parser and the hex tool report of a short input.
use ros2_dji_serial_bridge.Base.{
  ℕ, ◌≡◌, refl, arith, List, [], ◌∷◌, true, false, none, some, map, length, All, replicate,
}
use ros2_dji_serial_bridge.Base.Bytes.{u64}
use ros2_dji_serial_bridge.Base.Int.{pos}
use ros2_dji_serial_bridge.Node.Start.{Port}
use ros2_dji_serial_bridge.Diagnostic.{
  read16, crc8_bits, crc8_bytes, crc8, nibble_table, nibble_step, crc16_bytes, crc16, test_frame,
  append, parser_loop, parser_turn, skip_garbage, before_head,
}
use ros2_dji_serial_bridge.Diagnostic.Interop.{fresh_parser}
use ros2_dji_serial_bridge.Diagnostic.Events.{cut, kept}
use ros2_dji_serial_bridge.Diagnostic.Frames.{IsToolFrame, line_of}
use ros2_dji_serial_bridge.Diagnostic.Refines.{parse_chunks}
use ros2_dji_serial_bridge.Diagnostic.Chunks.{SameButSkips, parse_chunks-SameButSkips}
use ros2_dji_serial_bridge.Diagnostic.Session.{IsPiece, stream, fresh_parser-IsWaiting}
use ros2_dji_serial_bridge.Diagnostic.Options.{parse_arguments, parse_loop, branch}
use ros2_dji_serial_bridge.Diagnostic.Serial.{serial_port, set_options, raw_options, baud_speed}
use ros2_dji_serial_bridge.Diagnostic.Debug.{
  Session, Exit, DebugSystem, send_all, receive, after_sending, transmit, debug_turn, debug_loop,
  finish, start_session, leave_block, with_port, debug_main,
}
use ros2_dji_serial_bridge.Diagnostic.Debug.Reports.{
  Seen, ReportsToolFrames, bytes_read, debug_main-ReportsToolFrames, debug_main-stream,
}
use ros2_dji_serial_bridge.Tests.Startup.{keep}
use ros2_dji_serial_bridge.Tests.Debug.{stoi, stod, defines, port, rounds, command}

-- The same bytes at once, and cut inside the header.
parse_chunks-SameButSkips_example :
    SameButSkips
      (parse_chunks fresh_parser ((1 ∷ 0xa5 ∷ 8 ∷ 0 ∷ []) ∷ (3 ∷ 7 ∷ 4 ∷ []) ∷ []))
      (parse_chunks fresh_parser ((1 ∷ 0xa5 ∷ 8 ∷ 0 ∷ 3 ∷ 7 ∷ 4 ∷ []) ∷ []))
parse_chunks-SameButSkips_example =
    parse_chunks-SameButSkips ((1 ∷ 0xa5 ∷ 8 ∷ 0 ∷ []) ∷ (3 ∷ 7 ∷ 4 ∷ []) ∷ [])
      ((1 ∷ 0xa5 ∷ 8 ∷ 0 ∷ 3 ∷ 7 ∷ 4 ∷ []) ∷ []) fresh_parser fresh_parser-IsWaiting refl

-- What the cuts change: 14 bytes of noise are one lost sync in one read, and two in two reads.
abbrev noise : ℕ → List ℕ
noise size = replicate size 1

desyncs_test :
    ((parse_chunks fresh_parser (noise 14 ∷ [])).desyncs ≡ 1)
    × ((parse_chunks fresh_parser (noise 7 ∷ noise 7 ∷ [])).desyncs ≡ 2)
unfolding append parser_loop parser_turn skip_garbage before_head
desyncs_test = (refl, refl)

abbrev machine : DebugSystem
machine = record { port = port; log_opens = true; now = pos 0 }

debug_main-ReportsToolFrames_example :
    Seen
      (debug_main keep defines stoi stod (λ rate. pos 1000000000) command machine rounds)
      ReportsToolFrames
debug_main-ReportsToolFrames_example =
    debug_main-ReportsToolFrames keep defines stoi stod (λ rate. pos 1000000000) command machine
      rounds

abbrev run : Exit
run = debug_main keep defines stoi stod (λ rate. pos 1000000000) command machine rounds

abbrev last_session : Exit → Session
last_session (Exit.running_on s) = s
last_session (Exit.returned status p (some s)) = s
last_session (Exit.returned status p none) =
    start_session (record { device = ""; log_path = ""; baud = pos 0; rate = 0; tx = false })
      (pos 0)

run_ends : run ≡ Exit.returned 0 Port.closed (some (last_session run))
unfolding debug_main with_port leave_block finish start_session debug_loop debug_turn transmit
    after_sending receive send_all parse_arguments parse_loop branch serial_port set_options
    raw_options baud_speed crc8_bits crc8_bytes crc8 nibble_table nibble_step crc16_bytes crc16
    test_frame
run_ends = refl

abbrev pieces : List (List ℕ × List ℕ)
pieces = (1 ∷ [], test_frame 3) ∷ []

test_frame-IsToolFrame : IsToolFrame (test_frame 3)
unfolding read16 crc8_bits crc8_bytes crc8 nibble_table nibble_step crc16_bytes crc16 test_frame
test_frame-IsToolFrame = record {
  size = refl;
  bound = omega arith;
  head = refl;
  header = refl;
  body = refl;
}

pieces_good : All IsPiece pieces
pieces_good = (record { quiet = (omega arith, tt); frame = test_frame-IsToolFrame }, tt)

run_read : bytes_read (last_session run) ≡ stream pieces
unfolding debug_main with_port leave_block finish start_session debug_loop debug_turn transmit
    after_sending receive send_all parse_arguments parse_loop branch serial_port set_options
    raw_options baud_speed crc8_bits crc8_bytes crc8 nibble_table nibble_step crc16_bytes crc16
    test_frame stream
run_read = refl

debug_main-stream_example :
    (kept (last_session run).parser.printed ≡ map (λ p. line_of p.1) pieces)
    × ((last_session run).parser.frames ≡ u64 (length pieces))
    × ((last_session run).parser.bad_crc8 ≡ 0)
    × ((last_session run).parser.bad_crc16 ≡ 0)
    × (cut (last_session run).parser.buffer ≡ [])
debug_main-stream_example =
    debug_main-stream keep defines stoi stod (λ rate. pos 1000000000) command machine rounds 0
      Port.closed (last_session run) pieces run_ends pieces_good run_read
