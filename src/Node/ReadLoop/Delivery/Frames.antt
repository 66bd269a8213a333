-- ===== src/Node/ReadLoop/Delivery/Frames.antt =====
-- The messages of frames that arrive in any cuts.
use ros2_dji_serial_bridge.Base.{
  ℕ, ◌+◌, ◌*◌, ◌<◌, ◌≡◌, refl, sym, ap, ap₂, ◌∙◌, arith, List, [], ◌∷◌, ◌++◌, append-nil,
  append_assoc, length, drop, get_or, All,
}
use ros2_dji_serial_bridge.Base.Int.{ℤ, pos, ◌-ℤ◌}
use ros2_dji_serial_bridge.Node.State.{Node}
use ros2_dji_serial_bridge.Node.Handlers.Laws.{
  publications, message_of, as_list, dispatch-publishes,
}
use ros2_dji_serial_bridge.Node.Receive.{Rx, frame_stamp, rx_turn, scan, act, process_rx_buffer}
use ros2_dji_serial_bridge.Node.Receive.Loop.{process_stop}
use ros2_dji_serial_bridge.Node.Receive.Chunks.{arrive}
use ros2_dji_serial_bridge.Node.Receive.Stream.{
  rx, Item, IsItem, stream, take_frame, dispatch_all, process-stream,
}
use ros2_dji_serial_bridge.Node.Receive.Core.{AreAlike, AreAlike-refl, dispatch-settings}
use ros2_dji_serial_bridge.Node.ReadLoop.Delivery.{
  Arrival, all_bytes, all_times, read_all, due_messages, read_all-alike,
}

take_frame-publications :
    (id : ℕ) (payload : List ℕ) (times : List ℤ) (n : Node)
    → publications (take_frame id payload times n).events
      ≡ publications n.events
        ++ as_list (
            message_of id payload (
              get_or times (length payload + 8) (pos 0)
              -ℤ pos ((length payload + 9) * n.byte_wire_ns)))
unfolding take_frame frame_stamp
take_frame-publications id payload times n = dispatch-publishes id payload _ _

take_frame-wire :
    (id : ℕ) (payload : List ℕ) (times : List ℤ) (n : Node)
    → (take_frame id payload times n).byte_wire_ns ≡ n.byte_wire_ns
unfolding take_frame
take_frame-wire id payload times n = (dispatch-settings id payload (length payload) _ _).1

pub dispatch_all-publications :
    (items : List Item) (times : List ℤ) (n : Node)
    → publications (dispatch_all items times n).1.events
      ≡ publications n.events ++ due_messages n.byte_wire_ns items times
dispatch_all-publications [] times n = sym (append-nil (publications n.events))
dispatch_all-publications (item ∷ items) times n =
    let at_frame = drop (length item.garbage) times in
    let next = take_frame item.id item.payload at_frame n in
    dispatch_all-publications items (drop (length item.payload + 9) at_frame) next
    ∙ ap₂ (λ es wire. es ++ due_messages wire items (drop (length item.payload + 9) at_frame))
        (take_frame-publications item.id item.payload at_frame n)
        (take_frame-wire item.id item.payload at_frame n)
    ∙ append_assoc (publications n.events) _ _

pub process-short :
    (rest : List ℕ) (times : List ℤ) (n : Node)
    → length rest < 9
    → process_rx_buffer (rx rest times n) ≡ rx rest times n
process-short rest times n h =
    process_stop (rx rest times n) (unfold rx_turn scan act in ground arith)

-- However the bytes of frames are cut into reads, with bytes that are no frame head before each frame
-- and fewer than 9 bytes behind the last: the read thread publishes the message of every frame that
-- stands for one, once and in order, each with the time at which its last byte was read, less the
-- frame's wire time, and nothing else; and keeps just the bytes behind the last frame.
pub read_all-delivers :
    (poll_ms : ℕ) (items : List Item) (rest : List ℕ) (arrivals : List Arrival) (n : Node)
    → All IsItem items
    → length rest < 9
    → all_bytes arrivals ≡ stream items rest
    → ((read_all poll_ms arrivals (rx [] [] n)).buf ≡ rest)
      × (publications (read_all poll_ms arrivals (rx [] [] n)).node.events
          ≡ publications n.events ++ due_messages n.byte_wire_ns items (all_times arrivals))
read_all-delivers poll_ms items rest arrivals n h short e =
    let times = all_times arrivals in
    let started : AreAlike (rx [] [] n) (process_rx_buffer (rx [] [] n)) =
      rw (process-short [] [] n (omega arith)) (AreAlike-refl (rx [] [] n)) in
    let alike = read_all-alike poll_ms arrivals (rx [] [] n) (rx [] [] n) refl started in
    let ended : process_rx_buffer (arrive (all_bytes arrivals) times (rx [] [] n))
        ≡ rx rest (dispatch_all items times n).0 (dispatch_all items times n).1 =
      unfold arrive in
      ap (λ bytes. process_rx_buffer (rx bytes times n)) e
      ∙ process-stream items rest times n h
      ∙ process-short rest _ _ short in
    (
      alike.buf ∙ ap (λ (s : Rx). s.buf) ended,
      alike.published
          ∙ ap (λ (s : Rx). publications s.node.events) ended
          ∙ dispatch_all-publications items times n,
    )
