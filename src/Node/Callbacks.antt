-- ===== src/Node/Callbacks.antt =====
-- The subscriber callbacks: one ROS message in, one frame out. The narrowing of a double to a float
-- is a parameter, and so is `::write`.
pub mod Laws
pub mod Frames
use ros2_dji_serial_bridge.Base.{ℕ, ◌+◌, bit_or, List, [], ◌∷◌, Option, none, some, if◌then◌else◌}
use ros2_dji_serial_bridge.Base.Bytes.{u64}
use ros2_dji_serial_bridge.Protocol.{
  McbMsgType, nav_goal_bytes, CvTargetPayload, cv_target_bytes, relocalize_bytes, ping_bytes,
}
use ros2_dji_serial_bridge.Node.State.{Node, Event, Log, CvTarget, Ping, PointStamped, emit}
use ros2_dji_serial_bridge.Node.Transmit.{send_frame}

-- The last branch of each callback.
abbrev failed : McbMsgType → Node → Node
failed msg_type n = emit (Event.logged (Log.send_failed msg_type) ∷ []) n

-- The flags byte: bit 0 fire, bit 1 patrol, bit 2 turn.
unfoldable pub cv_flags : CvTarget → ℕ
cv_flags msg =
    bit_or
      (bit_or (if msg.fire then 0x01 else 0x00) (if msg.type_c_based_patrol then 0x02 else 0x00))
      (if msg.turn_to_hit then 0x04 else 0x00)

unfoldable pub cv_payload : CvTarget → CvTargetPayload
cv_payload msg = record {
  x = msg.x;
  y = msg.y;
  z = msg.z;
  delay_ms = msg.delay_ms;
  flags = cv_flags msg;
}

-- The pose that a relocalisation overwrites, if one was received.
abbrev pub previous_pose : Node → Option (ℕ × ℕ)
previous_pose n = if n.have_pose then some (n.last_pose_x, n.last_pose_y) else none

module _ (write : List ℕ → Option ℕ) where
  unfoldable pub cv_target_callback : CvTarget → Node → Node
  cv_target_callback msg n =
      let (sent, ok) = send_frame write McbMsgType.cv_target (cv_target_bytes (cv_payload msg)) n in
      if ok
      then record sent { cv_target_msgs_tx = u64 (sent.cv_target_msgs_tx + 1) }
      else failed McbMsgType.cv_target sent

  unfoldable pub ping_callback : Ping → Node → Node
  ping_callback msg n =
      let (sent, ok) =
        send_frame write McbMsgType.ping (ping_bytes (record { number = msg.number })) n in
      let counted = record sent { ping_msgs_tx = u64 (sent.ping_msgs_tx + 1) } in
      if ok
      then (if n.debug_log
          then emit (Event.logged (Log.ping_tx msg.number) ∷ []) counted
          else counted)
      else failed McbMsgType.ping sent

  module _ (to_float : ℕ → ℕ) where
    unfoldable pub nav_goal_callback : PointStamped → Node → Node
    nav_goal_callback msg n =
        let payload = nav_goal_bytes (record { x = to_float msg.x; y = to_float msg.y }) in
        let (sent, ok) = send_frame write McbMsgType.nav_goal payload n in
        if ok
        then record sent { nav_goal_msgs_tx = u64 (sent.nav_goal_msgs_tx + 1) }
        else failed McbMsgType.nav_goal sent

    unfoldable pub relocalize_callback : PointStamped → Node → Node
    relocalize_callback msg n =
        let payload = relocalize_bytes (record { x = to_float msg.x; y = to_float msg.y }) in
        let (sent, ok) = send_frame write McbMsgType.relocalize payload n in
        let count = u64 (sent.relocalize_msgs_tx + 1) in
        let line = Event.logged (Log.relocalized count (previous_pose sent) msg.x msg.y) in
        if ok
        then emit (line ∷ []) (record sent { relocalize_msgs_tx = count })
        else failed McbMsgType.relocalize sent
