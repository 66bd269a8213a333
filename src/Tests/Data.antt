-- ===== src/Tests/Data.antt =====
-- The inputs that the tests share.
use ros2_dji_serial_bridge.Base.{ℕ, true, false, List, [], ◌∷◌, Option, none, some, length}
use ros2_dji_serial_bridge.Base.Int.{leb_ℤ, pos}
use ros2_dji_serial_bridge.Node.State.{Node}
use ros2_dji_serial_bridge.Node.Start.{Parameters, Platform, Termios}

abbrev pub parameters : Parameters
parameters = record {
  baudrate = pos 115200;
  poll_ms = pos 10;
  enforce_crc = true;
  debug_log = false;
  diag_interval_s = pos 5;
}

abbrev pub node : Node
node = record {
  bytes_rx = 0;
  frames_rx = 0;
  crc8_errors = 0;
  crc16_errors = 0;
  pose_msgs_pub = 0;
  ref_sys_msgs_pub = 0;
  nav_goal_msgs_tx = 0;
  cv_target_msgs_tx = 0;
  relocalize_msgs_tx = 0;
  ping_msgs_pub = 0;
  ping_msgs_tx = 0;
  last_pose_x = 0;
  last_pose_y = 0;
  have_pose = false;
  last_odom_status = 0;
  silent_polls = 0;
  byte_wire_ns = 86805;
  tx_seq = 0;
  enforce_crc = true;
  debug_log = false;
  events = [];
}

abbrev pub termios : Termios
termios = record {
  ispeed = 9600;
  ospeed = 9600;
  char_size = 7;
  ignbrk = true;
  ixon = true;
  ixoff = true;
  ixany = true;
  clocal = false;
  cread = false;
  parenb = true;
  parodd = true;
  cstopb = true;
  crtscts = true;
  lflag = 1;
  oflag = 1;
  vmin = 1;
  vtime = 0;
}

abbrev pub platform : Platform
platform = record {
  exists = true;
  is_char_device = true;
  accessible = true;
  opens = true;
  attributes = some termios;
  takes_attributes = true;
  status_flags = 0x802;
  publishers_created = true;
  subscriptions_created = true;
  timer_accepts = λ period. leb_ℤ (pos 0) period;
  thread_starts = true;
}

-- A port that takes every byte, and one that fails.
abbrev pub takes_all : List ℕ → Option ℕ
takes_all frame = some (length frame)

abbrev pub fails : List ℕ → Option ℕ
fails frame = none

-- A PING frame with number 7 and sequence number 3.
abbrev pub ping_frame : List ℕ
ping_frame = 0xa5 ∷ 1 ∷ 0 ∷ 3 ∷ 138 ∷ 5 ∷ 0 ∷ 7 ∷ 36 ∷ 168 ∷ []
