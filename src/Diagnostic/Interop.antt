-- ===== src/Diagnostic/Interop.antt =====
-- The test frame of the diagnostic tools, as the bridge's receiver sees it.
use ros2_dji_serial_bridge.Base.{
  ℕ, ◌==◌, ◌&&◌, length, ◌<◌, ◌≡◌, ◌≢◌, refl, ap, ◌∙◌, arith, true, List, [], ◌∷◌, ◌++◌,
  if◌then◌else◌,
}
use ros2_dji_serial_bridge.Base.Bytes.{same_below, agree_below}
use ros2_dji_serial_bridge.Crc.{
  crc8_table, crc16_table, calculate_crc8, calculate_crc16, crc8_loop, crc16_loop, crc8_step,
  crc16_step,
}
use ros2_dji_serial_bridge.Protocol.{read_header}
use ros2_dji_serial_bridge.Node.Receive.{Verdict, scan, scan_body}
use ros2_dji_serial_bridge.Node.Receive.Scan.{scan-append}
use ros2_dji_serial_bridge.Diagnostic.{
  Line, FrameParser, read16, before_head, check_frame, at_head, skip_garbage, parser_turn,
  parser_loop, append, crc8_bits, crc8_bytes, crc8, nibble_table, nibble_step, crc16_bytes, crc16,
  test_frame,
}

-- 1 for a CRC-16 mismatch, else 0.
abbrev pub is_bad_crc16 : Verdict → ℕ
is_bad_crc16 (Verdict.bad_crc16 x y hdr) = 1
is_bad_crc16 _ = 0

test_frame_alone : (seq : ℕ) → seq < 256 → is_bad_crc16 (scan true (test_frame seq)) ≡ 1
unfolding same_below scan scan_body read_header calculate_crc8 calculate_crc16 crc8_loop crc16_loop
    crc8_step crc16_step crc8_table crc16_table crc8_bits crc8_bytes crc8 nibble_table nibble_step
    crc16_bytes crc16 test_frame
test_frame_alone seq =
    agree_below 256 (λ s. is_bad_crc16 (scan true (test_frame s))) (λ s. 1) seq refl

not_bad : (v w : Verdict) → is_bad_crc16 v ≡ 1 → is_bad_crc16 w ≡ 0 → v ≢ w
not_bad v w h k e = omega (arith, h, k, ap is_bad_crc16 e)

-- The bridge's receiver, with the checksums enforced, drops every test frame as a CRC-16 mismatch,
-- whatever the sequence number is and whatever bytes follow.
pub test_frame_rejected :
    (seq : ℕ) (rest : List ℕ) → seq < 256 → is_bad_crc16 (scan true (test_frame seq ++ rest)) ≡ 1
test_frame_rejected seq rest h =
    let alone = test_frame_alone seq h in
    ap is_bad_crc16 (
      scan-append true (test_frame seq) rest (not_bad _ Verdict.too_short alone refl)
        (not_bad _ Verdict.partial alone refl))
    ∙ alone

-- A parser that has seen nothing.
abbrev pub fresh_parser : FrameParser
fresh_parser = record {
  frames = 0;
  bad_crc8 = 0;
  bad_crc16 = 0;
  desyncs = 0;
  buffer = [];
  printed = [];
}

-- 1 if all that was printed is one RELOCALIZE frame with the number `seq`, and no byte is left.
abbrev pub took_test_frame : (seq : ℕ) → FrameParser → ℕ
took_test_frame seq p = elim p.printed [
  | Line.frame_ok got msg len payload ∷ [] ↦
      if got == seq && msg == 4 && len == 8 && p.frames == 1 && length p.buffer == 0 then 1 else 0
  | _ ↦ 0
]

-- The diagnostic parser takes the diagnostic test frame, with any sequence number, as one frame of
-- type 4 (RELOCALIZE) with 8 bytes of payload, and keeps no byte of it.
pub test_frame_taken :
    (seq : ℕ) → seq < 256 → took_test_frame seq (append (test_frame seq) fresh_parser) ≡ 1
unfolding same_below read16 before_head check_frame at_head skip_garbage parser_turn parser_loop
    append crc8_bits crc8_bytes crc8 nibble_table nibble_step crc16_bytes crc16 test_frame
test_frame_taken seq =
    agree_below 256 (λ s. took_test_frame s (append (test_frame s) fresh_parser)) (λ s. 1) seq refl
