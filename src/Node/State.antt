-- ===== src/Node/State.antt =====
-- The member variables of `DjiSerialBridge`, the ROS messages that it publishes and receives, and
-- what it does to the outside as a list of events. A `float` or `double` is its bit pattern, and a
-- `rclcpp::Time` is its nanoseconds. Debug-level log lines are left out.
use Prim.Native.String.{String}
use ros2_dji_serial_bridge.Base.{ℕ, Bool, List, ◌++◌, Option}
use ros2_dji_serial_bridge.Base.Int.{ℤ}
use ros2_dji_serial_bridge.Protocol.{McbMsgType, PosePayload, RefSysPayload}

-- msg/RobotPose.msg.
pub record RobotPose : Type 0 where
  pub stamp : ℤ
  pub x : ℕ
  pub y : ℕ
  pub vel_x : ℕ
  pub vel_y : ℕ
  pub head_pitch : ℕ
  pub head_yaw : ℕ
  pub chassis_yaw : ℕ
  pub chassis_yaw_rate : ℕ
  pub odom_status : ℕ

-- msg/RefSysStatus.msg.
pub record RefSysStatus : Type 0 where
  pub stamp : ℤ
  pub game_stage : ℕ
  pub stage_time_remaining : ℕ
  pub robot_hp : ℕ
  pub robot_id : ℕ
  pub delta_angle_got_hit_in : ℕ
  pub is_on_blue_team : Bool
  pub is_healing : Bool
  pub is_in_reload_zone : Bool
  pub is_in_center_zone : Bool
  pub team_occupies_center : Bool
  pub opponent_occupies_center : Bool
  pub chassis_has_power : Bool
  pub gimbal_has_power : Bool

-- msg/CVTarget.msg, as the node receives it. The header is not read.
pub record CvTarget : Type 0 where
  pub x : ℕ
  pub y : ℕ
  pub z : ℕ
  pub delay_ms : ℕ
  pub fire : Bool
  pub type_c_based_patrol : Bool
  pub turn_to_hit : Bool

-- msg/Ping.msg.
pub record Ping : Type 0 where
  pub stamp : ℤ
  pub number : ℕ

-- geometry_msgs/msg/PointStamped: the coordinates are doubles.
pub record PointStamped : Type 0 where
  pub x : ℕ
  pub y : ℕ
  pub z : ℕ

-- The log lines at INFO and above, each with the values that it prints.
pub data Log : Type 0 where
  crc8_mismatch : (seq got expected : ℕ) → Log
  crc16_mismatch : (seq msg_type data_len got expected : ℕ) → Log
  unexpected_msg_type : (msg_type len : ℕ) → Log
  pose_length ref_sys_length ping_length : (len : ℕ) → Log
  odom_back : (previous : ℕ) → (name : String) → Log
  odom_no_source odom_degraded : (status : ℕ) → (name : String) → Log
  first_pose : PosePayload → (name : String) → Log
  ref_sys_rx : (count : ℕ) → RefSysPayload → Log
  ping_rx ping_tx : (number : ℕ) → Log
  short_write : McbMsgType → Option ℕ → (size : ℕ) → Log
  send_failed : McbMsgType → Log
  relocalized : (count : ℕ) → Option (ℕ × ℕ) → (x y : ℕ) → Log
  no_data : (milliseconds poll_ms : ℕ) → Log
  first_bytes : (count : ℕ) → Log
  poll_error read_error device_disconnected : Log
  unsupported_baudrate : ℤ → Log
  no_permission accessible port_opened tcgetattr_failed tcsetattr_failed : Log
  port_configured : ℤ → Log
  device_missing not_a_character_device : Log
  publishers_ready subscribers_ready bridge_ready : Log
  thread_exiting : (bytes frames : ℕ) → Log
  diag_no_bytes : (silent nav_goal cv_target relocalize ping : ℕ) → Log
  diag_no_frames : (bytes crc8 crc16 nav_goal cv_target relocalize ping : ℕ) → Log
  diag_flowing :
      (bytes frames crc8 crc16 pose ref_sys ping_pub nav_goal cv_target relocalize ping : ℕ) → Log

-- `wrote frame result` is the call of `::write` with the frame and what it returned, `none` for -1.
pub data Event : Type 0 where
  logged : Log → Event
  published_pose : RobotPose → Event
  published_ref_sys : RefSysStatus → Event
  published_ping : Ping → Event
  wrote : List ℕ → Option ℕ → Event

-- The counters wrap at 2 ^ 64, `tx_seq` at 2 ^ 8. `events` is all that the node did, oldest first.
pub record Node : Type 0 where
  pub bytes_rx : ℕ
  pub frames_rx : ℕ
  pub crc8_errors : ℕ
  pub crc16_errors : ℕ
  pub pose_msgs_pub : ℕ
  pub ref_sys_msgs_pub : ℕ
  pub nav_goal_msgs_tx : ℕ
  pub cv_target_msgs_tx : ℕ
  pub relocalize_msgs_tx : ℕ
  pub ping_msgs_pub : ℕ
  pub ping_msgs_tx : ℕ
  pub last_pose_x : ℕ
  pub last_pose_y : ℕ
  pub have_pose : Bool
  pub last_odom_status : ℕ
  pub silent_polls : ℕ
  pub byte_wire_ns : ℕ
  pub tx_seq : ℕ
  pub enforce_crc : Bool
  pub debug_log : Bool
  pub events : List Event

-- What a method does to the outside.
unfoldable pub emit : List Event → Node → Node
emit es n = record n { events = n.events ++ es }
