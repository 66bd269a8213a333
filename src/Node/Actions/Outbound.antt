-- ===== src/Node/Actions/Outbound.antt =====
-- The subscriber callbacks and `print_diagnostics` as actions.
use ros2_dji_serial_bridge.Base.{ℕ, ◌+◌, refl, arith, List, Option}
use ros2_dji_serial_bridge.Base.Bytes.{IsByte, u64}
use ros2_dji_serial_bridge.Protocol.{
  McbMsgType, nav_goal_bytes, cv_target_bytes, relocalize_bytes, ping_bytes,
}
use ros2_dji_serial_bridge.Node.State.{Node, Log, CvTarget, Ping, PointStamped}
use ros2_dji_serial_bridge.Node.Transmit.{send_frame}
use ros2_dji_serial_bridge.Node.Callbacks.{
  cv_payload, nav_goal_callback, cv_target_callback, relocalize_callback, ping_callback,
}
use ros2_dji_serial_bridge.Node.Callbacks.Frames.{cv_target_bytes-AreBytes}
use ros2_dji_serial_bridge.Node.Diagnostics.{diagnostics_line, print_diagnostics}
use ros2_dji_serial_bridge.Node.Actions.{IsPlain, Action, Actions, one}
use ros2_dji_serial_bridge.Node.Actions.Inbound.{tested-Actions}

diagnostics_line-IsPlain : (n : Node) → IsPlain (diagnostics_line n)
unfolding diagnostics_line
diagnostics_line-IsPlain n = ground arith

pub print_diagnostics-Actions : (n : Node) → Actions n (print_diagnostics n)
unfolding print_diagnostics
print_diagnostics-Actions n = one (Action.says (diagnostics_line n) (diagnostics_line-IsPlain n))

module _ (write : List ℕ → Option ℕ) where
  pub cv_target_callback-Actions :
      (msg : CvTarget) (n : Node) → Actions n (cv_target_callback write msg n)
  unfolding cv_target_callback
  cv_target_callback-Actions msg n =
      let m = McbMsgType.cv_target in
      let payload = cv_target_bytes (cv_payload msg) in
      let sent = one (
        Action.sends write m payload (unfold cv_target_bytes in omega arith)
          (cv_target_bytes-AreBytes msg)) in
      tested-Actions (send_frame write m payload n).1 _ _
        (Actions.further sent (Action.counts _ refl))
        (Actions.further sent (Action.says (Log.send_failed m) tt))

  pub ping_callback-Actions :
      (msg : Ping) (n : Node) → IsByte msg.number → Actions n (ping_callback write msg n)
  unfolding ping_callback
  ping_callback-Actions msg n b =
      let m = McbMsgType.ping in
      let payload = ping_bytes (record { number = msg.number }) in
      let sent = one (
        Action.sends write m payload (unfold ping_bytes in omega arith)
          (unfold ping_bytes in omega arith)) in
      let counted = Actions.further sent (Action.counts _ refl) in
      tested-Actions (send_frame write m payload n).1 _ _
        (tested-Actions n.debug_log _ _
          (Actions.further counted (Action.says (Log.ping_tx msg.number) tt)) counted)
        (Actions.further sent (Action.says (Log.send_failed m) tt))

  module _ (to_float : ℕ → ℕ) where
    pub nav_goal_callback-Actions :
        (msg : PointStamped) (n : Node) → Actions n (nav_goal_callback write to_float msg n)
    unfolding nav_goal_callback
    nav_goal_callback-Actions msg n =
        let m = McbMsgType.nav_goal in
        let payload = nav_goal_bytes (record { x = to_float msg.x; y = to_float msg.y }) in
        let sent = one (
          Action.sends write m payload (unfold nav_goal_bytes in omega arith)
            (unfold nav_goal_bytes in omega arith)) in
        tested-Actions (send_frame write m payload n).1 _ _
          (Actions.further sent (Action.counts _ refl))
          (Actions.further sent (Action.says (Log.send_failed m) tt))

    pub relocalize_callback-Actions :
        (msg : PointStamped) (n : Node) → Actions n (relocalize_callback write to_float msg n)
    unfolding relocalize_callback
    relocalize_callback-Actions msg n =
        let m = McbMsgType.relocalize in
        let payload = relocalize_bytes (record { x = to_float msg.x; y = to_float msg.y }) in
        let (after, ok) = send_frame write m payload n in
        let sent = one (
          Action.sends write m payload (unfold relocalize_bytes in omega arith)
            (unfold relocalize_bytes in omega arith)) in
        tested-Actions ok _ _
          (Actions.further (Actions.further sent (Action.counts _ refl))
            (Action.relocalizes (u64 (after.relocalize_msgs_tx + 1)) msg.x msg.y))
          (Actions.further sent (Action.says (Log.send_failed m) tt))
