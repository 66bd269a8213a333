-- ===== src/Node/Receive.antt =====
-- `process_rx_buffer` and `frame_stamp`: the scan of the receive buffer for frames.
pub mod Scan
pub mod Loop
pub mod Chunks
pub mod Accept
pub mod Sound
pub mod Stream
pub mod Bounded
pub mod Core
use ros2_dji_serial_bridge.Base.{
  ℕ, zero, suc, ◌+◌, ◌-◌, ◌*◌, Bool, not, ◌&&◌, List, [], ◌∷◌, Option, none, some, length, take,
  drop, get_or, ◌==◌, ltb, if◌then◌else◌,
}
use ros2_dji_serial_bridge.Base.Int.{ℤ, pos, ◌-ℤ◌}
use ros2_dji_serial_bridge.Base.Bytes.{u64, byte_at}
use ros2_dji_serial_bridge.Crc.{calculate_crc8, calculate_crc16, crc8_init, crc16_init}
use ros2_dji_serial_bridge.Protocol.{
  frame_head, FrameHeader, size_of_header, crc8_coverage, read_header, u16_at,
}
use ros2_dji_serial_bridge.Node.State.{Node, Event, Log, emit}
use ros2_dji_serial_bridge.Node.Handlers.{dispatch_incoming}

abbrev pub min_frame : ℕ
min_frame = size_of_header + 2

-- What one turn of the loop finds at the front of the buffer.
pub data Verdict : Type 0 where
  too_short not_head partial : Verdict
  bad_crc8 : (expected : ℕ) → FrameHeader → Verdict
  bad_crc16 : (received calculated : ℕ) → FrameHeader → Verdict
  complete : FrameHeader → Verdict

-- Payload length of a frame with the header and the trailer.
abbrev pub total_len : FrameHeader → ℕ
total_len hdr = size_of_header + hdr.data_length + 2

-- Steps 3 and 4 of a turn: wait for the whole frame, then check its CRC-16.
unfoldable pub scan_body : (enforce_crc : Bool) → FrameHeader → List ℕ → Verdict
scan_body enforce_crc hdr buf =
    let crc16_idx = size_of_header + hdr.data_length in
    let received = u16_at buf crc16_idx in
    let calculated = calculate_crc16 (some (take crc16_idx buf)) crc16_init in
    if ltb (length buf) (total_len hdr)
    then Verdict.partial
    else if not (received == calculated) && enforce_crc
    then Verdict.bad_crc16 received calculated hdr
    else Verdict.complete hdr

-- Steps 1 and 2: the loop's condition, the frame head, and the CRC-8 of the header.
unfoldable pub scan : (enforce_crc : Bool) → List ℕ → Verdict
scan enforce_crc buf =
    let hdr = read_header buf in
    let expected = calculate_crc8 (some (take crc8_coverage buf)) crc8_init in
    if ltb (length buf) min_frame
    then Verdict.too_short
    else if not (byte_at buf 0 == frame_head)
    then Verdict.not_head
    else if not (expected == hdr.crc8) && enforce_crc
    then Verdict.bad_crc8 expected hdr
    else scan_body enforce_crc hdr buf

-- The read thread's buffer with the read time of each byte, and the node.
pub record Rx : Type 0 where
  pub buf : List ℕ
  pub read_ns : List ℤ
  pub node : Node

-- The lambda `drop`: the same count off both vectors.
unfoldable pub drop_front : ℕ → Rx → Rx
drop_front n s = record s { buf = drop n s.buf; read_ns = drop n s.read_ns }

unfoldable pub frame_stamp : ℤ → (frame_len : ℕ) → Node → ℤ
frame_stamp last_byte_read_ns frame_len n = last_byte_read_ns -ℤ pos (frame_len * n.byte_wire_ns)

-- Step 5: count the frame and dispatch its payload.
unfoldable pub deliver : FrameHeader → Rx → Node
deliver hdr s =
    dispatch_incoming hdr.msg_type (take hdr.data_length (drop size_of_header s.buf))
      hdr.data_length
      (frame_stamp (get_or s.read_ns (total_len hdr - 1) (pos 0)) (total_len hdr) s.node)
      (record s.node { frames_rx = u64 (s.node.frames_rx + 1) })

-- What a turn does on a verdict; `none` where the loop ends.
unfoldable pub act : Verdict → Rx → Option Rx
act Verdict.too_short s = none
act Verdict.partial s = none
act Verdict.not_head s = some (drop_front 1 s)
act (Verdict.bad_crc8 expected hdr) s =
    let line = Event.logged (Log.crc8_mismatch hdr.seq hdr.crc8 expected) in
    let counted = record s.node { crc8_errors = u64 (s.node.crc8_errors + 1) } in
    some (drop_front 1 (record s { node = emit (line ∷ []) counted }))
act (Verdict.bad_crc16 received calculated hdr) s =
    let line =
      Event.logged (Log.crc16_mismatch hdr.seq hdr.msg_type hdr.data_length received calculated) in
    let counted = record s.node { crc16_errors = u64 (s.node.crc16_errors + 1) } in
    some (drop_front 1 (record s { node = emit (line ∷ []) counted }))
act (Verdict.complete hdr) s = some (drop_front (total_len hdr) (record s { node = deliver hdr s }))

-- One turn of the loop.
unfoldable pub rx_turn : Rx → Option Rx
rx_turn s = act (scan s.node.enforce_crc s.buf) s

unfoldable pub rx_loop : ℕ → Rx → Rx
rx_loop zero s = s
rx_loop (suc fuel) s = elim (rx_turn s) [ none ↦ s | some t ↦ rx_loop fuel t ]

-- Each turn takes a byte at least, so the length of the buffer is fuel enough.
unfoldable pub process_rx_buffer : Rx → Rx
process_rx_buffer s = rx_loop (length s.buf) s
