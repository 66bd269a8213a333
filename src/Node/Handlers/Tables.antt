-- ===== src/Node/Handlers/Tables.antt =====
-- The messages of the wire tables of UART_PROTOCOL.md, and that the handlers build these.
use ros2_dji_serial_bridge.Base.{
  zero, suc, ◌∙◌, ◌^◌, ◌*◌, ℕ, ◌+◌, ◌/◌, ◌%◌, bit_and, ◌≡◌, ap, arith, Bool, List, ◌==◌,
}
use ros2_dji_serial_bridge.Base.Int.{ℤ}
use ros2_dji_serial_bridge.Base.Bits.{and_one}
use ros2_dji_serial_bridge.Base.Bytes.{byte_at}
use ros2_dji_serial_bridge.Protocol.{read_pose, read_ref_sys, u16_at, u32_at}
use ros2_dji_serial_bridge.Node.State.{RobotPose, RefSysStatus}
use ros2_dji_serial_bridge.Node.Handlers.{pose_msg, ref_sys_msg}

-- The little-endian number in a field of the wire tables, by its offset and size in bytes.
unfoldable pub field : List ℕ → (offset size : ℕ) → ℕ
field payload offset zero = 0
field payload offset (suc size) = byte_at payload offset + 256 * field payload (offset + 1) size

-- A flag of the wire table, by its bit.
unfoldable pub flag : ℕ → (bit : ℕ) → Bool
flag b bit = b / 2 ^ bit % 2 == 1

-- The messages of the tables of POSE and REF_SYS in UART_PROTOCOL.md.
unfoldable pub pose_of : List ℕ → ℤ → RobotPose
unfolding field
pose_of payload stamp = record {
  stamp = stamp;
  x = field payload 0 4;
  y = field payload 4 4;
  vel_x = field payload 8 4;
  vel_y = field payload 12 4;
  head_pitch = field payload 16 4;
  head_yaw = field payload 20 4;
  chassis_yaw = 0;
  chassis_yaw_rate = 0;
  odom_status = field payload 24 1;
}

unfoldable pub ref_sys_of : List ℕ → ℤ → RefSysStatus
unfolding field flag
ref_sys_of payload stamp =
    let flags = field payload 10 1 in
    record {
      stamp = stamp;
      game_stage = field payload 0 1;
      stage_time_remaining = field payload 1 2;
      robot_hp = field payload 3 2;
      robot_id = field payload 5 1;
      delta_angle_got_hit_in = field payload 6 4;
      is_on_blue_team = flag flags 7;
      is_healing = flag flags 6;
      is_in_reload_zone = flag flags 5;
      is_in_center_zone = flag flags 4;
      team_occupies_center = flag flags 3;
      opponent_occupies_center = flag flags 2;
      chassis_has_power = flag flags 1;
      gimbal_has_power = flag flags 0;
    }

u32_at-field : (payload : List ℕ) (i : ℕ) → u32_at payload i ≡ field payload i 4
unfolding field
u32_at-field payload i =
    let two : i + 1 + 1 ≡ i + 2 = omega arith in
    let three : i + 2 + 1 ≡ i + 3 = omega arith in rw (two, three) (omega arith)

u16_at-field : (payload : List ℕ) (i : ℕ) → u16_at payload i ≡ field payload i 2
unfolding field
u16_at-field payload i = omega arith

byte_at-field : (payload : List ℕ) (i : ℕ) → byte_at payload i ≡ field payload i 1
unfolding field
byte_at-field payload i = omega arith

pub pose_msg-pose_of :
    (payload : List ℕ) (stamp : ℤ) → pose_msg stamp (read_pose payload) ≡ pose_of payload stamp
unfolding pose_msg read_pose pose_of
pose_msg-pose_of payload stamp =
    let x = u32_at-field payload 0 in
    let y = u32_at-field payload 4 in
    let vel_x = u32_at-field payload 8 in
    let vel_y = u32_at-field payload 12 in
    let pitch = u32_at-field payload 16 in
    let yaw = u32_at-field payload 20 in
    let status = byte_at-field payload 24 in
    λ i. record {
      stamp = stamp;
      x = x i;
      y = y i;
      vel_x = vel_x i;
      vel_y = vel_y i;
      head_pitch = pitch i;
      head_yaw = yaw i;
      chassis_yaw = 0;
      chassis_yaw_rate = 0;
      odom_status = status i;
    }

bit-flag :
    (payload : List ℕ) (bit : ℕ)
    → (bit_and (byte_at payload 10 / 2 ^ bit) 1 == 1) ≡ flag (field payload 10 1) bit
unfolding flag
bit-flag payload bit =
    ap (λ n. n == 1) (and_one (byte_at payload 10 / 2 ^ bit))
    ∙ ap (λ b. b / 2 ^ bit % 2 == 1) (byte_at-field payload 10)

pub ref_sys_msg-ref_sys_of :
    (payload : List ℕ) (stamp : ℤ)
    → ref_sys_msg stamp (read_ref_sys payload) ≡ ref_sys_of payload stamp
unfolding ref_sys_msg read_ref_sys ref_sys_of
ref_sys_msg-ref_sys_of payload stamp =
    let stage = byte_at-field payload 0 in
    let time = u16_at-field payload 1 in
    let hp = u16_at-field payload 3 in
    let id = byte_at-field payload 5 in
    let angle = u32_at-field payload 6 in
    let f7 = bit-flag payload 7 in
    let f6 = bit-flag payload 6 in
    let f5 = bit-flag payload 5 in
    let f4 = bit-flag payload 4 in
    let f3 = bit-flag payload 3 in
    let f2 = bit-flag payload 2 in
    let f1 = bit-flag payload 1 in
    let f0 = bit-flag payload 0 in
    λ i. record {
      stamp = stamp;
      game_stage = stage i;
      stage_time_remaining = time i;
      robot_hp = hp i;
      robot_id = id i;
      delta_angle_got_hit_in = angle i;
      is_on_blue_team = f7 i;
      is_healing = f6 i;
      is_in_reload_zone = f5 i;
      is_in_center_zone = f4 i;
      team_occupies_center = f3 i;
      opponent_occupies_center = f2 i;
      chassis_has_power = f1 i;
      gimbal_has_power = f0 i;
    }
