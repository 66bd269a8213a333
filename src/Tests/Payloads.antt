-- ===== src/Tests/Payloads.antt =====
-- The structs and the handlers.
use ros2_dji_serial_bridge.Base.{◌≡◌, refl, arith, true, false, [], ◌∷◌, ◌++◌, length}
use ros2_dji_serial_bridge.Base.Int.{pos}
use ros2_dji_serial_bridge.Protocol.{
  FrameHeader, header_bytes, PosePayload, pose_bytes, RefSysPayload,
}
use ros2_dji_serial_bridge.Protocol.RoundTrip.{FitsPose, FitsRefSys}
use ros2_dji_serial_bridge.Node.Handlers.{ref_sys_msg, dispatch_incoming}
use ros2_dji_serial_bridge.Node.Handlers.Laws.{
  publications, message_of, as_list, dispatch-publishes, pack_flags, digit, ref_sys_msg-pack_flags,
}
use ros2_dji_serial_bridge.Tests.Data.{node}

abbrev header : FrameHeader
header = record { head = 0xa5; data_length = 0x1234; seq = 3; crc8 = 138; msg_type = 5 }

header_test : header_bytes header ≡ 0xa5 ∷ 0x34 ∷ 0x12 ∷ 3 ∷ 138 ∷ 5 ∷ 0 ∷ []
unfolding header_bytes
header_test = refl

-- (5.0, 3.0) as floats.
abbrev pose : PosePayload
pose = record {
  x = 0x40a00000;
  y = 0x40400000;
  vel_x = 0;
  vel_y = 0x80000000;
  head_pitch = 1;
  head_yaw = 0xffffffff;
  odom_status = 2;
}

pose_fits : FitsPose pose
pose_fits = omega arith

abbrev ref_sys : RefSysPayload
ref_sys = record {
  game_stage = 4;
  stage_time_remaining = 419;
  robot_hp = 600;
  robot_id = 1;
  delta_angle_got_hit_in = 0x40400000;
  booleans = 0xc1;
}

ref_sys_fits : FitsRefSys ref_sys
ref_sys_fits = omega arith

flags_test : ref_sys.booleans ≡ pack_flags true true false false false false false true
unfolding digit
flags_test = refl

ref_sys_msg-pack_flags_example : ref_sys_msg (pos 9) ref_sys ≡ record {
  stamp = pos 9;
  game_stage = 4;
  stage_time_remaining = 419;
  robot_hp = 600;
  robot_id = 1;
  delta_angle_got_hit_in = 0x40400000;
  is_on_blue_team = true;
  is_healing = true;
  is_in_reload_zone = false;
  is_in_center_zone = false;
  team_occupies_center = false;
  opponent_occupies_center = false;
  chassis_has_power = false;
  gimbal_has_power = true;
}
ref_sys_msg-pack_flags_example =
    ref_sys_msg-pack_flags (pos 9) ref_sys true true false false false false false true flags_test

dispatch-publishes_example :
    publications
      (dispatch_incoming 2 (pose_bytes pose) (length (pose_bytes pose)) (pos 9) node).events
    ≡ [] ++ as_list (message_of 2 (pose_bytes pose) (pos 9))
dispatch-publishes_example = dispatch-publishes 2 (pose_bytes pose) (pos 9) node
