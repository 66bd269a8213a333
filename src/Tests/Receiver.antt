-- ===== src/Tests/Receiver.antt =====
-- The receive path.
use ros2_dji_serial_bridge.Base.{
  replicate, drop, take, ◌≡◌, refl, arith, true, none, [], ◌∷◌, ◌++◌, All,
}
use ros2_dji_serial_bridge.Base.Int.{pos}
use ros2_dji_serial_bridge.Base.Bytes.{AreBytes}
use ros2_dji_serial_bridge.Crc.{
  crc8_table, crc16_table, calculate_crc8, calculate_crc16, crc8_loop, crc16_loop, crc8_step,
  crc16_step,
}
use ros2_dji_serial_bridge.Crc.Reference.{reflected_crc, shift_bits, shift_out}
use ros2_dji_serial_bridge.Protocol.{FrameHeader, read_header}
use ros2_dji_serial_bridge.Protocol.Wire.{wire_frame, wire_body, wire_crc8, IsSendable}
use ros2_dji_serial_bridge.Node.Receive.{Verdict, scan, scan_body, Rx, rx_turn, process_rx_buffer}
use ros2_dji_serial_bridge.Node.Receive.Loop.{process-ends}
use ros2_dji_serial_bridge.Node.Receive.Chunks.{arrive, process_chunks}
use ros2_dji_serial_bridge.Node.Receive.Sound.{complete-wire_frame}
use ros2_dji_serial_bridge.Node.Receive.Stream.{
  rx, Item, IsItem, stream, dispatch_all, process-stream,
}
use ros2_dji_serial_bridge.Tests.Data.{node, ping_frame}

-- The specification gives the bytes of the ping frame.
pub ping_frame_test : wire_frame 5 3 (7 ∷ []) ≡ ping_frame
unfolding wire_frame wire_body wire_crc8 reflected_crc shift_bits shift_out
ping_frame_test = refl

sendable : IsSendable 5 3 (7 ∷ [])
sendable = record {
  id_fits = omega arith;
  seq_fits = omega arith;
  length_fits = omega arith;
  bytes = omega arith;
}

abbrev pub ping_header : FrameHeader
ping_header = record { head = 0xa5; data_length = 1; seq = 3; crc8 = 138; msg_type = 5 }

scan_test : scan true ping_frame ≡ Verdict.complete ping_header
unfolding scan scan_body read_header calculate_crc8 crc8_loop crc8_step calculate_crc16 crc16_loop
    crc16_step crc8_table crc16_table
scan_test = refl

frame_bytes : AreBytes ping_frame
frame_bytes = omega arith

complete-wire_frame_example : IsSendable 5 3 (7 ∷ []) × (ping_frame ≡ wire_frame 5 3 (7 ∷ []) ++ [])
complete-wire_frame_example = complete-wire_frame ping_frame ping_header frame_bytes scan_test

-- A byte of garbage.
abbrev arrived : Rx
arrived = rx (9 ∷ []) (pos 1 ∷ []) node

-- The ping frame in two reads of five bytes.
abbrev first_read : Rx
first_read = rx (take 5 ping_frame) (replicate 5 (pos 1000)) node

process_chunks_example :
    process_rx_buffer
      (arrive (drop 5 ping_frame) (replicate 5 (pos 2000)) (process_rx_buffer first_read))
    ≡ process_rx_buffer (arrive (drop 5 ping_frame) (replicate 5 (pos 2000)) first_read)
process_chunks_example = process_chunks (drop 5 ping_frame) (replicate 5 (pos 2000)) first_read refl

abbrev pub item : Item
item = record { garbage = 9 ∷ []; id = 5; seq = 3; payload = 7 ∷ [] }

pub item-IsItem : All IsItem (item ∷ [])
item-IsItem = (((λ e. absurd (omega (arith, e)), tt), sendable), tt)

process-stream_example :
    process_rx_buffer (rx (stream (item ∷ []) (1 ∷ [])) (pos 100 ∷ []) node)
    ≡ process_rx_buffer (
        rx
          (1 ∷ [])
          (dispatch_all (item ∷ []) (pos 100 ∷ []) node).0
          (dispatch_all (item ∷ []) (pos 100 ∷ []) node).1)
process-stream_example = process-stream (item ∷ []) (1 ∷ []) (pos 100 ∷ []) node item-IsItem

process-ends_example : rx_turn (process_rx_buffer arrived) ≡ none
process-ends_example = process-ends arrived
