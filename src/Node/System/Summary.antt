-- ===== src/Node/System/Summary.antt =====
-- What the summaries of `print_diagnostics` say of what was received, in any run.
use ros2_dji_serial_bridge.Base.{ℕ, ◌+◌, ◌*◌, ◌^◌, ◌≤◌, ◌<◌, ◌≡◌, arith, List, [], ◌∷◌}
use ros2_dji_serial_bridge.Base.Int.{ℤ}
use ros2_dji_serial_bridge.Node.State.{Node, Event, Log}
use ros2_dji_serial_bridge.Node.Tally.{tally, weigh}
use ros2_dji_serial_bridge.Node.Consistent.{IsConsistent}
use ros2_dji_serial_bridge.Node.Diagnostics.{diagnostics_line}
use ros2_dji_serial_bridge.Node.Start.{Termios, Device, Platform, Parameters, Started, construct}
use ros2_dji_serial_bridge.Node.Receive.{Rx}
use ros2_dji_serial_bridge.Node.System.{System, Reach, launched}
use ros2_dji_serial_bridge.Node.System.Invariant.{Reach-launched-IsSound}
use ros2_dji_serial_bridge.Node.System.Balance.{IsBalanced}
use ros2_dji_serial_bridge.Node.System.Intake.{bytes_taken, Reach-IsBalanced}

-- A frame that was published was handed on.
published_dispatched :
    (es : List Event)
    → (tally es).poses + (tally es).ref_syses + (tally es).pings ≤ (tally es).dispatched
unfolding tally weigh
published_dispatched [] = omega arith
published_dispatched (Event.logged line ∷ es) = ground (arith, published_dispatched es)
published_dispatched (Event.published_pose m ∷ es) = omega (arith, published_dispatched es)
published_dispatched (Event.published_ref_sys m ∷ es) = omega (arith, published_dispatched es)
published_dispatched (Event.published_ping m ∷ es) = omega (arith, published_dispatched es)
published_dispatched (Event.wrote frame result ∷ es) = omega (arith, published_dispatched es)

-- What each summary says: the zeros that the first two print without reading a counter are those of
-- the counters, and the numbers of the third fit together.
abbrev pub SummaryTrue : Node → Log → Type 0
SummaryTrue n (Log.diag_no_bytes silent nav_goal cv_target relocalize ping) =
    (n.bytes_rx ≡ 0)
    × (n.frames_rx ≡ 0)
    × (n.crc8_errors ≡ 0)
    × (n.crc16_errors ≡ 0)
    × (n.pose_msgs_pub ≡ 0)
    × (n.ref_sys_msgs_pub ≡ 0)
    × (n.ping_msgs_pub ≡ 0)
SummaryTrue n (Log.diag_no_frames bytes crc8 crc16 nav_goal cv_target relocalize ping) =
    (0 < bytes)
    × (crc8 + crc16 ≤ bytes)
    × (n.frames_rx ≡ 0)
    × (n.pose_msgs_pub ≡ 0)
    × (n.ref_sys_msgs_pub ≡ 0)
    × (n.ping_msgs_pub ≡ 0)
SummaryTrue n
      (Log.diag_flowing bytes frames crc8 crc16 pose ref_sys ping_pub nav_goal cv_target relocalize
        ping) =
    (0 < frames) × (9 * frames + crc8 + crc16 ≤ bytes) × (pose + ref_sys + ping_pub ≤ frames)
SummaryTrue n _ = ⊥

diagnostics_line-SummaryTrue :
    (bytes : ℕ) (s : Rx)
    → IsBalanced bytes s
    → IsConsistent s.node
    → bytes < 2 ^ 64
    → SummaryTrue s.node (diagnostics_line s.node)
unfolding diagnostics_line
diagnostics_line-SummaryTrue bytes s b c h = ground (
  arith,
  b.counted,
  b.covered,
  published_dispatched s.node.events,
  c.frames,
  c.crc8,
  c.crc16,
  c.pose,
  c.ref_sys,
  c.ping_pub,
)

-- From a constructor that succeeds, through any steps of the read thread, the four callbacks and the
-- timer in any order, as long as fewer than 2 ^ 64 bytes were read: what the timer's summary says is
-- true, with the counters read at one moment: where it says that no bytes were received, all seven counters that
-- it prints as 0 are 0; where it says that no frames were decoded, some bytes were received, no more
-- checksums failed than bytes came, and the four counters that it prints as 0 are 0; otherwise it prints
-- at least one frame, 9 bytes at least for each and one for each failed checksum, and no more published
-- messages than frames.
pub Reach-SummaryTrue :
    (make_raw : Termios → Termios) (sys : Platform) (p : Parameters)
    → (poll_ms : ℕ) (to_float : ℕ → ℕ) (tty : Device) (period : ℤ) (n : Node) (s : System)
    → construct make_raw sys p ≡ Started.ready tty period n
    → (r : Reach poll_ms to_float (launched n) s) → bytes_taken r < 2 ^ 64
    → SummaryTrue s.rx.node (diagnostics_line s.rx.node)
Reach-SummaryTrue make_raw sys p poll_ms to_float tty period n s e r small =
    diagnostics_line-SummaryTrue (bytes_taken r) s.rx
      (Reach-IsBalanced make_raw sys p poll_ms to_float tty period n s e r)
      (Reach-launched-IsSound make_raw sys p poll_ms to_float tty period n s e r).consistent small
