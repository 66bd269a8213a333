-- ===== src/Protocol.antt =====
-- include/dji_serial_bridge/dji_protocol.hpp: the frame header, the message ids and the payload
-- structs, as the bytes that `memcpy` and `reinterpret_cast` move. All fields are little-endian.
-- A `float` field is its 32-bit pattern.
pub mod RoundTrip
pub mod Wire
use ros2_dji_serial_bridge.Base.{ℕ, ◌+◌, ◌*◌, ◌/◌, ◌%◌, List, [], ◌∷◌, ◌++◌}
use ros2_dji_serial_bridge.Base.Bytes.{byte_at}

abbrev pub frame_head : ℕ
frame_head = 0xa5

pub data McbMsgType : Type 0 where
  nav_goal cv_target pose ref_sys relocalize ping : McbMsgType

-- `static_cast<uint16_t>` of an enumerator.
abbrev pub msg_type_id : McbMsgType → ℕ
msg_type_id nav_goal = 0
msg_type_id cv_target = 1
msg_type_id pose = 2
msg_type_id ref_sys = 3
msg_type_id relocalize = 4
msg_type_id ping = 5

pub record FrameHeader : Type 0 where
  pub head : ℕ
  pub data_length : ℕ
  pub seq : ℕ
  pub crc8 : ℕ
  pub msg_type : ℕ

abbrev pub size_of_header : ℕ
size_of_header = 7

-- `offsetof(FrameHeader, crc8)`.
abbrev pub crc8_coverage : ℕ
crc8_coverage = 4

-- The memory of a `uint16_t` and of a 32-bit field.
abbrev pub le16 : ℕ → List ℕ
le16 n = n % 256 ∷ n / 256 % 256 ∷ []

abbrev pub le32 : ℕ → List ℕ
le32 n = n % 256 ∷ n / 256 % 256 ∷ n / 65536 % 256 ∷ n / 16777216 % 256 ∷ []

-- A `uint16_t` and a 32-bit field read at an offset.
abbrev pub u16_at : List ℕ → ℕ → ℕ
u16_at bytes i = byte_at bytes i + byte_at bytes (i + 1) * 256

abbrev pub u32_at : List ℕ → ℕ → ℕ
u32_at bytes i =
    byte_at bytes i
    + byte_at bytes (i + 1) * 256
    + byte_at bytes (i + 2) * 65536
    + byte_at bytes (i + 3) * 16777216

unfoldable pub header_bytes : FrameHeader → List ℕ
header_bytes h = h.head ∷ (le16 h.data_length ++ (h.seq ∷ h.crc8 ∷ le16 h.msg_type))

unfoldable pub read_header : List ℕ → FrameHeader
read_header bytes = record {
  head = byte_at bytes 0;
  data_length = u16_at bytes 1;
  seq = byte_at bytes 3;
  crc8 = byte_at bytes 4;
  msg_type = u16_at bytes 5;
}

pub record PosePayload : Type 0 where
  pub x : ℕ
  pub y : ℕ
  pub vel_x : ℕ
  pub vel_y : ℕ
  pub head_pitch : ℕ
  pub head_yaw : ℕ
  pub odom_status : ℕ

abbrev pub size_of_pose : ℕ
size_of_pose = 25

unfoldable pub read_pose : List ℕ → PosePayload
read_pose p = record {
  x = u32_at p 0;
  y = u32_at p 4;
  vel_x = u32_at p 8;
  vel_y = u32_at p 12;
  head_pitch = u32_at p 16;
  head_yaw = u32_at p 20;
  odom_status = byte_at p 24;
}

-- The MCB's side of the same packed struct.
unfoldable pub pose_bytes : PosePayload → List ℕ
pose_bytes p =
    le32 p.x
    ++ (le32 p.y
        ++ (le32 p.vel_x
            ++ (le32 p.vel_y ++ (le32 p.head_pitch ++ (le32 p.head_yaw ++ (p.odom_status ∷ []))))))

pub record RefSysPayload : Type 0 where
  pub game_stage : ℕ
  pub stage_time_remaining : ℕ
  pub robot_hp : ℕ
  pub robot_id : ℕ
  pub delta_angle_got_hit_in : ℕ
  pub booleans : ℕ

abbrev pub size_of_ref_sys : ℕ
size_of_ref_sys = 11

unfoldable pub read_ref_sys : List ℕ → RefSysPayload
read_ref_sys p = record {
  game_stage = byte_at p 0;
  stage_time_remaining = u16_at p 1;
  robot_hp = u16_at p 3;
  robot_id = byte_at p 5;
  delta_angle_got_hit_in = u32_at p 6;
  booleans = byte_at p 10;
}

unfoldable pub ref_sys_bytes : RefSysPayload → List ℕ
ref_sys_bytes p =
    p.game_stage
    ∷ (le16 p.stage_time_remaining
        ++ (le16 p.robot_hp ++ (p.robot_id ∷ (le32 p.delta_angle_got_hit_in ++ (p.booleans ∷ [])))))

pub record NavGoalPayload : Type 0 where
  pub x : ℕ
  pub y : ℕ

unfoldable pub nav_goal_bytes : NavGoalPayload → List ℕ
nav_goal_bytes p = le32 p.x ++ le32 p.y

pub record CvTargetPayload : Type 0 where
  pub x : ℕ
  pub y : ℕ
  pub z : ℕ
  pub delay_ms : ℕ
  pub flags : ℕ

unfoldable pub cv_target_bytes : CvTargetPayload → List ℕ
cv_target_bytes p = le32 p.x ++ (le32 p.y ++ (le32 p.z ++ (le16 p.delay_ms ++ (p.flags ∷ []))))

pub record RelocalizePayload : Type 0 where
  pub x : ℕ
  pub y : ℕ

unfoldable pub relocalize_bytes : RelocalizePayload → List ℕ
relocalize_bytes p = le32 p.x ++ le32 p.y

pub record PingPayload : Type 0 where
  pub number : ℕ

unfoldable pub ping_bytes : PingPayload → List ℕ
ping_bytes p = p.number ∷ []

abbrev pub size_of_ping : ℕ
size_of_ping = 1
