-- ===== src/Node/Tally.antt =====
-- What a list of events amounts to: how often each kind of thing was done.
use ros2_dji_serial_bridge.Base.{
  ℕ, ◌+◌, ◌≡◌, arith, ◌&&◌, List, [], ◌∷◌, ◌++◌, Option, length, ◌==◌, if◌then◌else◌,
}
use ros2_dji_serial_bridge.Base.Bytes.{byte_at}
use ros2_dji_serial_bridge.Node.State.{Event, Log}
use ros2_dji_serial_bridge.Node.Transmit.{all_written}

-- `dispatched` counts the frames that ended in a publication or in a warning about them; the last
-- four the frames of a type that `write` took whole; `writes` all frames handed to it.
pub record Tally : Type 0 where
  pub poses : ℕ
  pub ref_syses : ℕ
  pub pings : ℕ
  pub crc8_drops : ℕ
  pub crc16_drops : ℕ
  pub dispatched : ℕ
  pub writes : ℕ
  pub nav_goals : ℕ
  pub cv_targets : ℕ
  pub relocalizes : ℕ
  pub ping_frames : ℕ

abbrev pub nothing : Tally
nothing = record {
  poses = 0;
  ref_syses = 0;
  pings = 0;
  crc8_drops = 0;
  crc16_drops = 0;
  dispatched = 0;
  writes = 0;
  nav_goals = 0;
  cv_targets = 0;
  relocalizes = 0;
  ping_frames = 0;
}

-- A frame of a type that went out whole; byte 5 is the low byte of the message type.
unfoldable pub sent_whole : ℕ → List ℕ → Option ℕ → ℕ
sent_whole id frame written =
    if all_written written (length frame) && byte_at frame 5 == id then 1 else 0

weigh_log : Log → Tally
weigh_log (Log.crc8_mismatch seq got expected) = record nothing { crc8_drops = 1 }
weigh_log (Log.crc16_mismatch seq msg_type len got expected) = record nothing { crc16_drops = 1 }
weigh_log (Log.unexpected_msg_type msg_type len) = record nothing { dispatched = 1 }
weigh_log (Log.pose_length len) = record nothing { dispatched = 1 }
weigh_log (Log.ref_sys_length len) = record nothing { dispatched = 1 }
weigh_log (Log.ping_length len) = record nothing { dispatched = 1 }
weigh_log _ = nothing

unfoldable pub weigh : Event → Tally
unfolding weigh_log
weigh (Event.logged line) = weigh_log line
weigh (Event.published_pose msg) = record nothing { poses = 1; dispatched = 1 }
weigh (Event.published_ref_sys msg) = record nothing { ref_syses = 1; dispatched = 1 }
weigh (Event.published_ping msg) = record nothing { pings = 1; dispatched = 1 }
weigh (Event.wrote frame written) = record nothing {
  writes = 1;
  nav_goals = sent_whole 0 frame written;
  cv_targets = sent_whole 1 frame written;
  relocalizes = sent_whole 4 frame written;
  ping_frames = sent_whole 5 frame written;
}

abbrev plus : Tally → Tally → Tally
plus a b = record {
  poses = a.poses + b.poses;
  ref_syses = a.ref_syses + b.ref_syses;
  pings = a.pings + b.pings;
  crc8_drops = a.crc8_drops + b.crc8_drops;
  crc16_drops = a.crc16_drops + b.crc16_drops;
  dispatched = a.dispatched + b.dispatched;
  writes = a.writes + b.writes;
  nav_goals = a.nav_goals + b.nav_goals;
  cv_targets = a.cv_targets + b.cv_targets;
  relocalizes = a.relocalizes + b.relocalizes;
  ping_frames = a.ping_frames + b.ping_frames;
}

unfoldable pub tally : List Event → Tally
tally [] = nothing
tally (e ∷ es) = plus (weigh e) (tally es)

pub tally-append : (xs ys : List Event) → tally (xs ++ ys) ≡ plus (tally xs) (tally ys)
unfolding tally
tally-append [] ys = ground arith
tally-append (x ∷ xs) ys = ground (arith, tally-append xs ys)
