-- ===== src/Tests/Tools.antt =====
-- The diagnostic tools' frame parser.
use ros2_dji_serial_bridge.Base.{◌<◌, ◌≡◌, refl, arith, true, some, [], ◌∷◌, ◌++◌, length}
use ros2_dji_serial_bridge.Base.Bytes.{AreBytes}
use ros2_dji_serial_bridge.Crc.{calculate_crc8, crc8_init}
use ros2_dji_serial_bridge.Node.Receive.{scan}
use ros2_dji_serial_bridge.Diagnostic.{ParserTurn, crc8, crc16, test_frame, append, parser_turn}
use ros2_dji_serial_bridge.Diagnostic.Checksums.{
  crc8-eq-calculate_crc8, SameLowHalves, crc16_blind_high_halves,
}
use ros2_dji_serial_bridge.Diagnostic.Parser.{append-AtRest}
use ros2_dji_serial_bridge.Diagnostic.Interop.{is_bad_crc16, test_frame_rejected, fresh_parser}

header_bytes_test : AreBytes (0xa5 ∷ 8 ∷ 0 ∷ 3 ∷ [])
header_bytes_test = omega arith

crc8-eq-calculate_crc8_example :
    crc8 (0xa5 ∷ 8 ∷ 0 ∷ 3 ∷ []) ≡ calculate_crc8 (some (0xa5 ∷ 8 ∷ 0 ∷ 3 ∷ [])) crc8_init
crc8-eq-calculate_crc8_example = crc8-eq-calculate_crc8 (0xa5 ∷ 8 ∷ 0 ∷ 3 ∷ []) header_bytes_test

same_low_halves : SameLowHalves (0x31 ∷ 0x42 ∷ []) (0xf1 ∷ 0x02 ∷ [])
same_low_halves = (refl, (refl, tt))

crc16_blind_high_halves_example : crc16 (0x31 ∷ 0x42 ∷ []) ≡ crc16 (0xf1 ∷ 0x02 ∷ [])
crc16_blind_high_halves_example =
    crc16_blind_high_halves (0x31 ∷ 0x42 ∷ []) (0xf1 ∷ 0x02 ∷ []) same_low_halves

append-AtRest_example :
    (length (append (1 ∷ test_frame 9) fresh_parser).buffer < 4096)
    × (parser_turn (append (1 ∷ test_frame 9) fresh_parser)
        ≡ ParserTurn.leave (append (1 ∷ test_frame 9) fresh_parser))
append-AtRest_example = append-AtRest (1 ∷ test_frame 9) fresh_parser

test_frame_rejected_example : is_bad_crc16 (scan true (test_frame 3 ++ (0xa5 ∷ []))) ≡ 1
test_frame_rejected_example = test_frame_rejected 3 (0xa5 ∷ []) (omega arith)
