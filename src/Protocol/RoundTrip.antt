-- ===== src/Protocol/RoundTrip.antt =====
-- Reading a struct's bytes back, with whatever follows them.
use ros2_dji_serial_bridge.Base.{ℕ, ◌^◌, ◌<◌, ◌≡◌, refl, arith, List, ◌++◌, length}
use ros2_dji_serial_bridge.Base.Bytes.{IsByte, AreBytes}
use ros2_dji_serial_bridge.Protocol.{
  FrameHeader, header_bytes, read_header, PosePayload, read_pose, pose_bytes, size_of_pose,
  RefSysPayload, read_ref_sys, ref_sys_bytes, size_of_ref_sys,
}

abbrev pub IsU16 : ℕ → Type 0
IsU16 n = n < 2 ^ 16

abbrev pub IsU32 : ℕ → Type 0
IsU32 n = n < 2 ^ 32

-- The fields have the widths that the struct declares.
pub record FitsHeader (h : FrameHeader) : Type 0 where
  pub head : IsByte h.head
  pub data_length : IsU16 h.data_length
  pub seq : IsByte h.seq
  pub crc8 : IsByte h.crc8
  pub msg_type : IsU16 h.msg_type

pub record FitsPose (p : PosePayload) : Type 0 where
  pub x : IsU32 p.x
  pub y : IsU32 p.y
  pub vel_x : IsU32 p.vel_x
  pub vel_y : IsU32 p.vel_y
  pub head_pitch : IsU32 p.head_pitch
  pub head_yaw : IsU32 p.head_yaw
  pub odom_status : IsByte p.odom_status

pub record FitsRefSys (p : RefSysPayload) : Type 0 where
  pub game_stage : IsByte p.game_stage
  pub stage_time_remaining : IsU16 p.stage_time_remaining
  pub robot_hp : IsU16 p.robot_hp
  pub robot_id : IsByte p.robot_id
  pub delta_angle_got_hit_in : IsU32 p.delta_angle_got_hit_in
  pub booleans : IsByte p.booleans

-- The header that is read back from a header's bytes is the header, whatever follows.
pub read_header-header_bytes :
    (h : FrameHeader) (rest : List ℕ) → FitsHeader h → read_header (header_bytes h ++ rest) ≡ h
unfolding read_header header_bytes
read_header-header_bytes h rest fits = ground arith

pub length-header_bytes : (h : FrameHeader) → length (header_bytes h) ≡ 7
unfolding header_bytes
length-header_bytes h = refl

pub header_bytes-AreBytes : (h : FrameHeader) → FitsHeader h → AreBytes (header_bytes h)
unfolding header_bytes
header_bytes-AreBytes h fits = omega arith

-- The pose and referee structs are read back field for field from their packed bytes, which have
-- the sizes that the handlers ask for.
pub read_payloads :
    (p : PosePayload) (r : RefSysPayload)
    → FitsPose p
    → FitsRefSys r
    → (read_pose (pose_bytes p) ≡ p)
      × (length (pose_bytes p) ≡ size_of_pose)
      × (read_ref_sys (ref_sys_bytes r) ≡ r)
      × (length (ref_sys_bytes r) ≡ size_of_ref_sys)
unfolding read_pose pose_bytes read_ref_sys ref_sys_bytes
read_payloads p r hp hr = (ground arith, refl, ground arith, refl)
