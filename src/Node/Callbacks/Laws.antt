-- ===== src/Node/Callbacks/Laws.antt =====
-- The callbacks keep the counters, and send one frame with the message's fields.
use ros2_dji_serial_bridge.Base.{ℕ, ◌≡◌, refl, arith, List, Option}
use ros2_dji_serial_bridge.Base.Bytes.{byte_at}
use ros2_dji_serial_bridge.Protocol.{McbMsgType, msg_type_id, header_bytes}
use ros2_dji_serial_bridge.Node.State.{Node, CvTarget, Ping, PointStamped}
use ros2_dji_serial_bridge.Node.Tally.{tally, tally-append, weigh, sent_whole}
use ros2_dji_serial_bridge.Node.Consistent.{IsConsistent}
use ros2_dji_serial_bridge.Node.Transmit.{tx_frame, tx_header, send_frame}
use ros2_dji_serial_bridge.Node.Callbacks.{
  nav_goal_callback, cv_target_callback, relocalize_callback, ping_callback,
}

-- Byte 5 of a frame is the message type.
tx_frame_type :
    (m : McbMsgType) (seq : ℕ) (payload : List ℕ)
    → byte_at (tx_frame m seq payload) 5 ≡ msg_type_id m
unfolding tx_frame tx_header header_bytes
tx_frame_type McbMsgType.nav_goal seq payload = refl
tx_frame_type McbMsgType.cv_target seq payload = refl
tx_frame_type McbMsgType.pose seq payload = refl
tx_frame_type McbMsgType.ref_sys seq payload = refl
tx_frame_type McbMsgType.relocalize seq payload = refl
tx_frame_type McbMsgType.ping seq payload = refl

module _ (write : List ℕ → Option ℕ) where
  pub cv_target_callback-IsConsistent :
      (msg : CvTarget) (n : Node) → IsConsistent n → IsConsistent (cv_target_callback write msg n)
  unfolding cv_target_callback send_frame tally weigh sent_whole
  cv_target_callback-IsConsistent msg n c = grind (arith, tally-append, tx_frame_type)

  pub ping_callback-IsConsistent :
      (msg : Ping) (n : Node) → IsConsistent n → IsConsistent (ping_callback write msg n)
  unfolding ping_callback send_frame tally weigh sent_whole
  ping_callback-IsConsistent msg n c = grind (arith, tally-append, tx_frame_type)

  module _ (to_float : ℕ → ℕ) where
    pub nav_goal_callback-IsConsistent :
        (msg : PointStamped) (n : Node)
        → IsConsistent n
        → IsConsistent (nav_goal_callback write to_float msg n)
    unfolding nav_goal_callback send_frame tally weigh sent_whole
    nav_goal_callback-IsConsistent msg n c = grind (arith, tally-append, tx_frame_type)

    pub relocalize_callback-IsConsistent :
        (msg : PointStamped) (n : Node)
        → IsConsistent n
        → IsConsistent (relocalize_callback write to_float msg n)
    unfolding relocalize_callback send_frame tally weigh sent_whole
    relocalize_callback-IsConsistent msg n c = grind (arith, tally-append, tx_frame_type)
