-- ===== src/Node/Handlers.antt =====
-- `dispatch_incoming` and the handlers of the messages from the MCB. `payload` holds the `len`
-- bytes that follow the header; a handler reads it only after the length check.
pub mod Tables
pub mod Laws
use Prim.Native.String.{String}
use ros2_dji_serial_bridge.Base.{
  ℕ, ◌+◌, ◌/◌, ◌^◌, bit_and, Bool, true, not, List, [], ◌∷◌, ◌++◌, ◌==◌, if◌then◌else◌,
}
use ros2_dji_serial_bridge.Base.Int.{ℤ}
use ros2_dji_serial_bridge.Base.Bytes.{u64, byte_at}
use ros2_dji_serial_bridge.Protocol.{
  McbMsgType, msg_type_id, PosePayload, RefSysPayload, read_pose, read_ref_sys, size_of_pose,
  size_of_ref_sys, size_of_ping,
}
use ros2_dji_serial_bridge.Node.State.{Node, Event, Log, RobotPose, RefSysStatus, emit}

unfoldable pub pose_msg : ℤ → PosePayload → RobotPose
pose_msg stamp raw = record {
  stamp = stamp;
  x = raw.x;
  y = raw.y;
  vel_x = raw.vel_x;
  vel_y = raw.vel_y;
  head_pitch = raw.head_pitch;
  head_yaw = raw.head_yaw;
  chassis_yaw = 0;
  chassis_yaw_rate = 0;
  odom_status = raw.odom_status;
}

unfoldable pub odom_status_name : ℕ → String
odom_status_name s =
    if s == 0
    then "odometry pods"
    else if s == 1
    then "drivetrain odometry"
    else if s == 2
    then "i2c dead, no data"
    else if s == 3
    then "i2c dead, drivetrain odometry"
    else "undefined code"

-- The line about a change of the odometry status.
unfoldable pub odom_log : (previous status : ℕ) → List Event
odom_log previous status =
    if status == previous
    then []
    else if status == 0
    then Event.logged (Log.odom_back previous (odom_status_name previous)) ∷ []
    else if status == 2
    then Event.logged (Log.odom_no_source status (odom_status_name status)) ∷ []
    else Event.logged (Log.odom_degraded status (odom_status_name status)) ∷ []

unfoldable pub first_pose_log : (count : ℕ) → PosePayload → List Event
first_pose_log count raw =
    if count == 1
    then Event.logged (Log.first_pose raw (odom_status_name raw.odom_status)) ∷ []
    else []

-- `handle_pose` after the length check.
unfoldable pub publish_pose : PosePayload → ℤ → Node → Node
publish_pose raw stamp n =
    let count = u64 (n.pose_msgs_pub + 1) in
    record n {
      last_pose_x = raw.x;
      last_pose_y = raw.y;
      have_pose = true;
      last_odom_status = raw.odom_status;
      pose_msgs_pub = count;
      events =
          n.events
          ++ (odom_log n.last_odom_status raw.odom_status
              ++ (first_pose_log count raw ++ (Event.published_pose (pose_msg stamp raw) ∷ [])));
    }

unfoldable pub handle_pose : List ℕ → (len : ℕ) → ℤ → Node → Node
unfolding publish_pose emit
handle_pose payload len stamp n =
    if not (len == size_of_pose)
    then emit (Event.logged (Log.pose_length len) ∷ []) n
    else publish_pose (read_pose payload) stamp n

-- `(b >> k) & 1u`.
abbrev bit_of : ℕ → ℕ → Bool
bit_of b k = bit_and (b / 2 ^ k) 1 == 1

unfoldable pub ref_sys_msg : ℤ → RefSysPayload → RefSysStatus
ref_sys_msg stamp raw =
    let b = raw.booleans in
    record {
      stamp = stamp;
      game_stage = raw.game_stage;
      stage_time_remaining = raw.stage_time_remaining;
      robot_hp = raw.robot_hp;
      robot_id = raw.robot_id;
      delta_angle_got_hit_in = raw.delta_angle_got_hit_in;
      is_on_blue_team = bit_of b 7;
      is_healing = bit_of b 6;
      is_in_reload_zone = bit_of b 5;
      is_in_center_zone = bit_of b 4;
      team_occupies_center = bit_of b 3;
      opponent_occupies_center = bit_of b 2;
      chassis_has_power = bit_of b 1;
      gimbal_has_power = bit_of b 0;
    }

-- `handle_ref_sys` after the length check.
unfoldable pub publish_ref_sys : RefSysPayload → ℤ → Node → Node
unfolding ref_sys_msg
publish_ref_sys raw stamp n =
    let count = u64 (n.ref_sys_msgs_pub + 1) in
    record n {
      ref_sys_msgs_pub = count;
      events =
          n.events
          ++ ((if n.debug_log then Event.logged (Log.ref_sys_rx count raw) ∷ [] else [])
              ++ (Event.published_ref_sys (ref_sys_msg stamp raw) ∷ []));
    }

unfoldable pub handle_ref_sys : List ℕ → (len : ℕ) → ℤ → Node → Node
unfolding publish_ref_sys emit
handle_ref_sys payload len stamp n =
    if not (len == size_of_ref_sys)
    then emit (Event.logged (Log.ref_sys_length len) ∷ []) n
    else publish_ref_sys (read_ref_sys payload) stamp n

-- `handle_ping` after the length check.
unfoldable pub publish_ping : (number : ℕ) → ℤ → Node → Node
publish_ping number stamp n = record n {
  ping_msgs_pub = u64 (n.ping_msgs_pub + 1);
  events =
      n.events
      ++ ((if n.debug_log then Event.logged (Log.ping_rx number) ∷ [] else [])
          ++ (Event.published_ping (record { stamp = stamp; number = number }) ∷ []));
}

unfoldable pub handle_ping : List ℕ → (len : ℕ) → ℤ → Node → Node
unfolding publish_ping emit
handle_ping payload len stamp n =
    if not (len == size_of_ping)
    then emit (Event.logged (Log.ping_length len) ∷ []) n
    else publish_ping (byte_at payload 0) stamp n

unfoldable pub dispatch_incoming : (msg_type : ℕ) → List ℕ → (len : ℕ) → ℤ → Node → Node
unfolding emit
dispatch_incoming msg_type payload len stamp n =
    if msg_type == msg_type_id McbMsgType.pose
    then handle_pose payload len stamp n
    else if msg_type == msg_type_id McbMsgType.ref_sys
    then handle_ref_sys payload len stamp n
    else if msg_type == msg_type_id McbMsgType.ping
    then handle_ping payload len stamp n
    else emit (Event.logged (Log.unexpected_msg_type msg_type len) ∷ []) n
