-- ===== src/Tests/Sender.antt =====
-- The transmit path.
use ros2_dji_serial_bridge.Base.{◌↔◌, ◌≡◌, arith, true, some, [], ◌∷◌, ◌++◌}
use ros2_dji_serial_bridge.Base.Bytes.{AreBytes}
use ros2_dji_serial_bridge.Protocol.{McbMsgType}
use ros2_dji_serial_bridge.Protocol.Wire.{wire_frame}
use ros2_dji_serial_bridge.Node.Transmit.{tx_frame, send_frame}
use ros2_dji_serial_bridge.Node.Transmit.Laws.{
  frames_written, tx_frame-eq-wire_frame, send_frame-writes,
}
use ros2_dji_serial_bridge.Tests.Data.{node, fails}

one_byte : AreBytes (7 ∷ [])
one_byte = omega arith

tx_frame-eq-wire_frame_example : tx_frame McbMsgType.ping 3 (7 ∷ []) ≡ wire_frame 5 3 (7 ∷ [])
tx_frame-eq-wire_frame_example =
    tx_frame-eq-wire_frame McbMsgType.ping 3 (7 ∷ []) (omega arith) (omega arith) one_byte

-- The write fails.
send_frame-writes_example :
    (frames_written (send_frame fails McbMsgType.ping (7 ∷ []) node).0.events
      ≡ [] ++ (wire_frame 5 0 (7 ∷ []) ∷ []))
    × ((send_frame fails McbMsgType.ping (7 ∷ []) node).0.tx_seq ≡ 1)
    × (((send_frame fails McbMsgType.ping (7 ∷ []) node).1 ≡ true)
        ↔ (fails (wire_frame 5 0 (7 ∷ [])) ≡ some 10))
send_frame-writes_example =
    send_frame-writes fails McbMsgType.ping (7 ∷ []) node (omega arith) (omega arith) one_byte
