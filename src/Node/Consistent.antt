-- ===== src/Node/Consistent.antt =====
-- The counters say what the node did: each is the number of its events, wrapped at its width.
use ros2_dji_serial_bridge.Base.{
  some_inverse, subst, some, take, drop, get_or, ◌-◌, ℕ, ◌+◌, ◌≡◌, arith, List, ltb,
}
use ros2_dji_serial_bridge.Base.Int.{ℤ, pos}
use ros2_dji_serial_bridge.Base.Bytes.{u8, u64}
use ros2_dji_serial_bridge.Protocol.{PosePayload}
use ros2_dji_serial_bridge.Node.State.{Node, Event, emit}
use ros2_dji_serial_bridge.Node.Receive.{
  Verdict, Rx, act, drop_front, deliver, rx_turn, scan, process_rx_buffer, total_len, frame_stamp,
}
use ros2_dji_serial_bridge.Node.Receive.Loop.{process_induction, process_stop, process_turn}
use ros2_dji_serial_bridge.Node.Tally.{tally, tally-append, weigh, nothing}
use ros2_dji_serial_bridge.Node.Handlers.{
  odom_log, first_pose_log, handle_pose, handle_ref_sys, handle_ping, dispatch_incoming,
}

pub record IsConsistent (n : Node) : Type 0 where
  pub pose : n.pose_msgs_pub ≡ u64 (tally n.events).poses
  pub ref_sys : n.ref_sys_msgs_pub ≡ u64 (tally n.events).ref_syses
  pub ping_pub : n.ping_msgs_pub ≡ u64 (tally n.events).pings
  pub crc8 : n.crc8_errors ≡ u64 (tally n.events).crc8_drops
  pub crc16 : n.crc16_errors ≡ u64 (tally n.events).crc16_drops
  pub frames : n.frames_rx ≡ u64 (tally n.events).dispatched
  pub seq : n.tx_seq ≡ u8 (tally n.events).writes
  pub nav_goal : n.nav_goal_msgs_tx ≡ u64 (tally n.events).nav_goals
  pub cv_target : n.cv_target_msgs_tx ≡ u64 (tally n.events).cv_targets
  pub relocalize : n.relocalize_msgs_tx ≡ u64 (tally n.events).relocalizes
  pub ping_tx : n.ping_msgs_tx ≡ u64 (tally n.events).ping_frames
  pub seen_pose : n.have_pose ≡ ltb 0 (tally n.events).poses

-- The node with one more frame counted, as the receive loop hands it to `dispatch_incoming`.
abbrev pub counted : Node → Node
counted n = record n { frames_rx = u64 (n.frames_rx + 1) }

pub tally-odom_log : (previous status : ℕ) → tally (odom_log previous status) ≡ nothing
unfolding odom_log tally weigh
tally-odom_log previous status = ground arith

pub tally-first_pose_log :
    (count : ℕ) (raw : PosePayload) → tally (first_pose_log count raw) ≡ nothing
unfolding first_pose_log tally weigh
tally-first_pose_log count raw = ground arith

pub handle_pose-IsConsistent :
    (payload : List ℕ) (len : ℕ) (stamp : ℤ) (n : Node)
    → IsConsistent n
    → IsConsistent (handle_pose payload len stamp (counted n))
unfolding handle_pose tally weigh
handle_pose-IsConsistent payload len stamp n c =
    grind (arith, tally-append, tally-odom_log, tally-first_pose_log)

pub handle_ref_sys-IsConsistent :
    (payload : List ℕ) (len : ℕ) (stamp : ℤ) (n : Node)
    → IsConsistent n
    → IsConsistent (handle_ref_sys payload len stamp (counted n))
unfolding handle_ref_sys tally weigh
handle_ref_sys-IsConsistent payload len stamp n c = grind (arith, tally-append)

pub handle_ping-IsConsistent :
    (payload : List ℕ) (len : ℕ) (stamp : ℤ) (n : Node)
    → IsConsistent n
    → IsConsistent (handle_ping payload len stamp (counted n))
unfolding handle_ping tally weigh
handle_ping-IsConsistent payload len stamp n c = grind (arith, tally-append)

pub dispatch-IsConsistent :
    (msg_type : ℕ) (payload : List ℕ) (len : ℕ) (stamp : ℤ) (n : Node)
    → IsConsistent n
    → IsConsistent (dispatch_incoming msg_type payload len stamp (counted n))
unfolding dispatch_incoming tally weigh
dispatch-IsConsistent msg_type payload len stamp n c = grind (
  arith, tally-append, handle_pose-IsConsistent, handle_ref_sys-IsConsistent,
  handle_ping-IsConsistent,
)

-- Log lines that are about no frame keep the counters' meaning.
pub emit-IsConsistent :
    (es : List Event) (n : Node) → tally es ≡ nothing → IsConsistent n → IsConsistent (emit es n)
unfolding emit
emit-IsConsistent es n h c = ground (arith, tally-append n.events es)

act-IsConsistent :
    (v : Verdict) (s t : Rx) → IsConsistent s.node → act v s ≡ some t → IsConsistent t.node
unfolding act drop_front emit tally weigh deliver
act-IsConsistent Verdict.too_short s t c p = cc
act-IsConsistent Verdict.partial s t c p = cc
act-IsConsistent Verdict.not_head s t c p = ground arith
act-IsConsistent (Verdict.bad_crc8 x hdr) s t c p = grind (arith, tally-append)
act-IsConsistent (Verdict.bad_crc16 x y hdr) s t c p = grind (arith, tally-append)
act-IsConsistent (Verdict.complete hdr) s t c p =
    subst (λ (r : Rx). IsConsistent r.node) (some_inverse _ t p)
      (dispatch-IsConsistent hdr.msg_type (take hdr.data_length (drop 7 s.buf)) hdr.data_length
        (frame_stamp (get_or s.read_ns (total_len hdr - 1) (pos 0)) (total_len hdr) s.node) s.node
        c)

-- Processing the receive buffer keeps each counter of events equal to what it counts.
pub process-IsConsistent : (s : Rx) → IsConsistent s.node → IsConsistent (process_rx_buffer s).node
process-IsConsistent =
    process_induction (λ s. IsConsistent s.node → IsConsistent (process_rx_buffer s).node)
      (λ s h c. rw (process_stop s h) c)
      (λ s t p ih c.
        rw (process_turn s t p)
          (ih (act-IsConsistent (scan s.node.enforce_crc s.buf) s t c (unfold rx_turn in p))))
