-- ===== src/Node/System/Echo.antt =====
-- The ping: out through `ping_callback`, back through the read thread.
use ros2_dji_serial_bridge.Base.{
  ℕ, ◌*◌, ◌<◌, ◌≡◌, sym, ◌∙◌, arith, List, [], ◌∷◌, ◌++◌, append-nil, Option, get_or,
}
use ros2_dji_serial_bridge.Base.Int.{pos, ◌-ℤ◌}
use ros2_dji_serial_bridge.Base.Bytes.{IsByte}
use ros2_dji_serial_bridge.Protocol.{McbMsgType, ping_bytes}
use ros2_dji_serial_bridge.Protocol.Wire.{wire_frame, IsSendable}
use ros2_dji_serial_bridge.Node.State.{Node, Event, Ping, emit}
use ros2_dji_serial_bridge.Node.Transmit.{send_frame}
use ros2_dji_serial_bridge.Node.Transmit.Laws.{
  frames_written, frames_written-append, send_frame-writes,
}
use ros2_dji_serial_bridge.Node.Callbacks.{ping_callback}
use ros2_dji_serial_bridge.Node.Handlers.Laws.{publications, message_of}
use ros2_dji_serial_bridge.Node.Receive.Stream.{rx, Item}
use ros2_dji_serial_bridge.Node.ReadLoop.Delivery.{Arrival, all_bytes, all_times, read_all}
use ros2_dji_serial_bridge.Node.ReadLoop.Delivery.Frames.{read_all-delivers}

ping_callback-frames :
    (write : List ℕ → Option ℕ) (msg : Ping) (n : Node)
    → frames_written (ping_callback write msg n).events
      ≡ frames_written (send_frame write McbMsgType.ping (msg.number ∷ []) n).0.events
unfolding ping_callback ping_bytes emit
ping_callback-frames write msg n = grind (arith, frames_written-append, append-nil)

-- With the node's sequence number below 256, a ping of a byte hands `write` one frame, the PING frame
-- with that byte and that number; and when a PING frame with that byte comes back, with any number of
-- the sender's below 256 and cut into any reads, a read thread whose buffer is empty publishes one ping with the same byte, with the time at
-- which the frame's last byte was read, less the wire time of ten bytes, and keeps no bytes.
pub ping_callback-echo :
    (write : List ℕ → Option ℕ) (msg : Ping) (n m : Node)
    → (poll_ms seq : ℕ) (arrivals : List Arrival) → n.tx_seq < 256
    → IsByte msg.number
    → seq < 256
    → all_bytes arrivals ≡ wire_frame 5 seq (msg.number ∷ [])
    → (frames_written (ping_callback write msg n).events
        ≡ frames_written n.events ++ (wire_frame 5 n.tx_seq (msg.number ∷ []) ∷ []))
      × (publications (read_all poll_ms arrivals (rx [] [] m)).node.events
          ≡ publications m.events
            ++ (Event.published_ping (record {
              stamp = get_or (all_times arrivals) 9 (pos 0) -ℤ pos (10 * m.byte_wire_ns);
              number = msg.number;
            })
                ∷ []))
      × ((read_all poll_ms arrivals (rx [] [] m)).buf ≡ [])
ping_callback-echo write msg n m poll_ms seq arrivals hs byte hq e =
    let item : Item = record { garbage = []; id = 5; seq = seq; payload = msg.number ∷ [] } in
    let sendable : IsSendable 5 seq (msg.number ∷ []) = record {
      id_fits = omega arith;
      seq_fits = hq;
      length_fits = omega arith;
      bytes = (byte, tt);
    } in
    let sent =
      send_frame-writes write McbMsgType.ping (msg.number ∷ []) n hs (omega arith) (byte, tt) in
    let (left, published) =
      read_all-delivers poll_ms (item ∷ []) [] arrivals m ((tt, sendable), tt) (omega arith)
        (e ∙ sym (append-nil (wire_frame 5 seq (msg.number ∷ [])))) in
    (ping_callback-frames write msg n ∙ sent.0, unfold message_of in published, left)
