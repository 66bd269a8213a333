-- ===== src/Node/Diagnostics.antt =====
-- `print_diagnostics`: which of its three summaries the timer prints. The first loads of the atomics
-- are made at one instant.
use ros2_dji_serial_bridge.Base.{ℕ, ◌&&◌, [], ◌∷◌, ltb, ◌==◌, if◌then◌else◌}
use ros2_dji_serial_bridge.Node.State.{Node, Event, Log, emit}

-- The summary from the values in `n`, which were loaded first; the first test loads `frames_rx` again,
-- and gets `frames_now`.
abbrev pub summary : (frames_now : ℕ) → Node → Log
summary frames_now n =
    if n.bytes_rx == 0 && frames_now == 0
    then Log.diag_no_bytes n.silent_polls n.nav_goal_msgs_tx n.cv_target_msgs_tx
        n.relocalize_msgs_tx n.ping_msgs_tx
    else if n.frames_rx == 0 && ltb 0 n.bytes_rx
    then Log.diag_no_frames n.bytes_rx n.crc8_errors n.crc16_errors n.nav_goal_msgs_tx
        n.cv_target_msgs_tx n.relocalize_msgs_tx n.ping_msgs_tx
    else Log.diag_flowing n.bytes_rx n.frames_rx n.crc8_errors n.crc16_errors n.pose_msgs_pub
        n.ref_sys_msgs_pub n.ping_msgs_pub n.nav_goal_msgs_tx n.cv_target_msgs_tx
        n.relocalize_msgs_tx n.ping_msgs_tx

-- The line of a timer call that is one step: no frame comes between the loads.
unfoldable pub diagnostics_line : Node → Log
diagnostics_line n = summary n.frames_rx n

unfoldable pub print_diagnostics : Node → Node
print_diagnostics n = emit (Event.logged (diagnostics_line n) ∷ []) n
