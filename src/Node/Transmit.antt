-- ===== src/Node/Transmit.antt =====
-- `send_frame`: the header, the two checksums and the write. `::write` is a parameter: for the
-- bytes that it is handed it gives the count that it took, `none` for -1. A payload pointer with
-- its `uint16_t` length is a list.
pub mod Laws
use ros2_dji_serial_bridge.Base.{
  ℕ, ◌+◌, ◌/◌, ◌^◌, bit_and, Bool, true, false, List, [], ◌∷◌, ◌++◌, Option, none, some, length,
  take, ◌==◌, if◌then◌else◌,
}
use ros2_dji_serial_bridge.Base.Bytes.{u8, u16}
use ros2_dji_serial_bridge.Crc.{calculate_crc8, calculate_crc16, crc8_init, crc16_init}
use ros2_dji_serial_bridge.Protocol.{
  McbMsgType, msg_type_id, FrameHeader, header_bytes, frame_head, crc8_coverage,
}
use ros2_dji_serial_bridge.Node.State.{Node, Event, Log, emit}

-- The header before `crc8` and `msgType` are set.
abbrev pub blank_header : (payload_len seq : ℕ) → FrameHeader
blank_header payload_len seq = record {
  head = frame_head;
  data_length = payload_len;
  seq = seq;
  crc8 = 0;
  msg_type = 0;
}

unfoldable pub tx_header : McbMsgType → (payload_len seq : ℕ) → FrameHeader
tx_header msg_type payload_len seq =
    let hdr = blank_header payload_len seq in
    let crc8 = calculate_crc8 (some (take crc8_coverage (header_bytes hdr))) crc8_init in
    record hdr { crc8 = crc8; msg_type = msg_type_id msg_type }

-- The two pushes of the CRC-16.
unfoldable pub trailer : ℕ → List ℕ
trailer crc16 = u8 (bit_and crc16 0xff) ∷ u8 (bit_and (crc16 / 2 ^ 8) 0xff) ∷ []

-- The vector `frame`.
unfoldable pub tx_frame : McbMsgType → (seq : ℕ) → List ℕ → List ℕ
tx_frame msg_type seq payload =
    let frame = header_bytes (tx_header msg_type (u16 (length payload)) seq) ++ payload in
    frame ++ trailer (calculate_crc16 (some frame) crc16_init)

-- `written != static_cast<ssize_t>(frame.size())`, negated.
unfoldable pub all_written : Option ℕ → ℕ → Bool
all_written none size = false
all_written (some count) size = count == size

unfoldable pub send_frame : (List ℕ → Option ℕ) → McbMsgType → List ℕ → Node → Node × Bool
unfolding all_written emit
send_frame write msg_type payload n =
    let frame = tx_frame msg_type n.tx_seq payload in
    let written = write frame in
    let sent = emit (Event.wrote frame written ∷ []) (record n { tx_seq = u8 (n.tx_seq + 1) }) in
    if all_written written (length frame)
    then (sent, true)
    else (emit (Event.logged (Log.short_write msg_type written (length frame)) ∷ []) sent, false)
