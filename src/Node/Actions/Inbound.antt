-- ===== src/Node/Actions/Inbound.antt =====
-- The read thread's operations as actions: `dispatch_incoming`, `process_rx_buffer` and a turn of
-- `read_loop`.
use ros2_dji_serial_bridge.Base.{
  ℕ, ◌-◌, ◌+◌, ◌*◌, ◌<◌, ◌≡◌, refl, subst, arith, lt→ltb, not, Bool, true, false, List, [], ◌∷◌,
  some, some_inverse, length, take, drop, get_or, ◌==◌, if◌then◌else◌, All-take, All-drop,
  All-get_or, All-append,
}
use ros2_dji_serial_bridge.Base.Int.{ℤ, pos}
use ros2_dji_serial_bridge.Base.Bytes.{AreBytes, IsByte, byte_at, u64}
use ros2_dji_serial_bridge.Protocol.{read_pose, read_ref_sys}
use ros2_dji_serial_bridge.Protocol.RoundTrip.{FitsPose, FitsRefSys}
use ros2_dji_serial_bridge.Node.State.{Node, Event, Log, emit}
use ros2_dji_serial_bridge.Node.Handlers.{
  publish_pose, publish_ref_sys, publish_ping, handle_pose, handle_ref_sys, handle_ping,
  dispatch_incoming,
}
use ros2_dji_serial_bridge.Node.Receive.{
  Rx, Verdict, act, deliver, drop_front, rx_turn, scan, process_rx_buffer, total_len, frame_stamp,
}
use ros2_dji_serial_bridge.Node.Receive.Loop.{process_induction, process_stop, process_turn}
use ros2_dji_serial_bridge.Node.Receive.Chunks.{arrive}
use ros2_dji_serial_bridge.Node.Receive.Bounded.{rx_turn-AreBytes}
use ros2_dji_serial_bridge.Node.ReadLoop.{
  ReadResult, PollResult, Turn, silent_poll, take_chunk, after_read, read_input, read_turn,
}
use ros2_dji_serial_bridge.Node.ReadLoop.Laws.{IsRead, IsPoll}
use ros2_dji_serial_bridge.Node.Actions.{Action, Actions, one, join}

byte_at-IsByte : (bytes : List ℕ) (i : ℕ) → AreBytes bytes → IsByte (byte_at bytes i)
byte_at-IsByte bytes i h = All-get_or IsByte bytes i 0 h (omega arith)

read_pose-FitsPose : (bytes : List ℕ) → AreBytes bytes → FitsPose (read_pose bytes)
unfolding read_pose
read_pose-FitsPose bytes h =
    let byte : (i : ℕ) → byte_at bytes i < 256 = λ i. byte_at-IsByte bytes i h in
    record {
      x = omega (arith, byte 0, byte 1, byte 2, byte 3);
      y = omega (arith, byte 4, byte 5, byte 6, byte 7);
      vel_x = omega (arith, byte 8, byte 9, byte 10, byte 11);
      vel_y = omega (arith, byte 12, byte 13, byte 14, byte 15);
      head_pitch = omega (arith, byte 16, byte 17, byte 18, byte 19);
      head_yaw = omega (arith, byte 20, byte 21, byte 22, byte 23);
      odom_status = byte 24;
    }

read_ref_sys-FitsRefSys : (bytes : List ℕ) → AreBytes bytes → FitsRefSys (read_ref_sys bytes)
unfolding read_ref_sys
read_ref_sys-FitsRefSys bytes h =
    let byte : (i : ℕ) → byte_at bytes i < 256 = λ i. byte_at-IsByte bytes i h in
    record {
      game_stage = byte 0;
      stage_time_remaining = omega (arith, byte 1, byte 2);
      robot_hp = omega (arith, byte 3, byte 4);
      robot_id = byte 5;
      delta_angle_got_hit_in = omega (arith, byte 6, byte 7, byte 8, byte 9);
      booleans = byte 10;
    }

-- One of two outcomes.
pub tested-Actions :
    {n : Node} (b : Bool) (t u : Node) → Actions n t → Actions n u → Actions n (if b then t else u)
tested-Actions true t u h k = h
tested-Actions false t u h k = k

module _ (payload : List ℕ) (len : ℕ) (stamp : ℤ) (n : Node) (h : AreBytes payload) where
  handle_pose-Actions : Actions n (handle_pose payload len stamp n)
  unfolding handle_pose
  handle_pose-Actions =
      tested-Actions (not (len == 25)) (emit (Event.logged (Log.pose_length len) ∷ []) n)
        (publish_pose (read_pose payload) stamp n) (one (Action.says (Log.pose_length len) tt))
        (one (Action.poses (read_pose payload) stamp (read_pose-FitsPose payload h)))

  handle_ref_sys-Actions : Actions n (handle_ref_sys payload len stamp n)
  unfolding handle_ref_sys
  handle_ref_sys-Actions =
      tested-Actions (not (len == 11)) (emit (Event.logged (Log.ref_sys_length len) ∷ []) n)
        (publish_ref_sys (read_ref_sys payload) stamp n)
        (one (Action.says (Log.ref_sys_length len) tt))
        (one (Action.ref_syses (read_ref_sys payload) stamp (read_ref_sys-FitsRefSys payload h)))

  handle_ping-Actions : Actions n (handle_ping payload len stamp n)
  unfolding handle_ping
  handle_ping-Actions =
      tested-Actions (not (len == 1)) (emit (Event.logged (Log.ping_length len) ∷ []) n)
        (publish_ping (byte_at payload 0) stamp n) (one (Action.says (Log.ping_length len) tt))
        (one (Action.pings (byte_at payload 0) stamp (byte_at-IsByte payload 0 h)))

  dispatch-Actions : (msg_type : ℕ) → Actions n (dispatch_incoming msg_type payload len stamp n)
  unfolding dispatch_incoming
  dispatch-Actions msg_type = tested-Actions (msg_type == 2) _ _ handle_pose-Actions (
      tested-Actions (msg_type == 3) _ _ handle_ref_sys-Actions (
        tested-Actions (msg_type == 5) _ _ handle_ping-Actions
          (one (Action.says (Log.unexpected_msg_type msg_type len) tt))))

act-Actions : (v : Verdict) (s t : Rx) → AreBytes s.buf → act v s ≡ some t → Actions s.node t.node
unfolding act drop_front deliver
act-Actions Verdict.too_short s t h p = cc
act-Actions Verdict.partial s t h p = cc
act-Actions Verdict.not_head s t h p =
    subst (λ (r : Rx). Actions s.node r.node) (some_inverse _ t p) Actions.none_left
act-Actions (Verdict.bad_crc8 x hdr) s t h p =
    subst (λ (r : Rx). Actions s.node r.node) (some_inverse _ t p)
      (Actions.further
        (one (Action.counts (record s.node { crc8_errors = u64 (s.node.crc8_errors + 1) }) refl))
        (Action.says (Log.crc8_mismatch hdr.seq hdr.crc8 x) tt))
act-Actions (Verdict.bad_crc16 x y hdr) s t h p =
    subst (λ (r : Rx). Actions s.node r.node) (some_inverse _ t p)
      (Actions.further
        (one (Action.counts (record s.node { crc16_errors = u64 (s.node.crc16_errors + 1) }) refl))
        (Action.says (Log.crc16_mismatch hdr.seq hdr.msg_type hdr.data_length x y) tt))
act-Actions (Verdict.complete hdr) s t h p =
    let payload = take hdr.data_length (drop 7 s.buf) in
    let counted = record s.node { frames_rx = u64 (s.node.frames_rx + 1) } in
    let stamp = frame_stamp (get_or s.read_ns (total_len hdr - 1) (pos 0)) (total_len hdr) s.node in
    subst (λ (r : Rx). Actions s.node r.node) (some_inverse _ t p)
      (join (one (Action.counts counted refl)) (
        dispatch-Actions payload hdr.data_length stamp counted
          (All-take IsByte hdr.data_length (drop 7 s.buf) (All-drop IsByte 7 s.buf h))
          hdr.msg_type))

process-Actions : (s : Rx) → AreBytes s.buf → Actions s.node (process_rx_buffer s).node
process-Actions =
    process_induction (λ s. AreBytes s.buf → Actions s.node (process_rx_buffer s).node)
      (λ s h bytes. rw (process_stop s h) Actions.none_left)
      (λ s t p ih bytes. rw (process_turn s t p) (
        join (act-Actions (scan s.node.enforce_crc s.buf) s t bytes (unfold rx_turn in p))
          (ih (rx_turn-AreBytes s t bytes p))))

silent_poll-Actions : (poll_ms : ℕ) (n : Node) → Actions n (silent_poll poll_ms n)
unfolding silent_poll
silent_poll-Actions poll_ms n =
    let counted = record n { silent_polls = u64 (n.silent_polls + 1) } in
    let counts = one (Action.counts counted refl) in
    tested-Actions (u64 (n.silent_polls + 1) == 100) _ _
      (Actions.further counts (Action.says (Log.no_data (poll_ms * 100) poll_ms) tt)) counts

take_chunk-Actions :
    (chunk : List ℕ) (now : ℤ) (s : Rx) → Actions s.node (take_chunk chunk now s).node
unfolding take_chunk arrive
take_chunk-Actions chunk now s =
    let counted = record s.node {
      bytes_rx = u64 (s.node.bytes_rx + length chunk);
      silent_polls = 0;
    } in
    let counts = one (Action.counts counted refl) in
    tested-Actions (s.node.bytes_rx == 0) _ _
      (Actions.further counts (Action.says (Log.first_bytes (length chunk)) tt)) counts

abbrev pub turn_node : Turn → Node
turn_node (Turn.next s) = s.node
turn_node (Turn.break s) = s.node

after_read-Actions :
    (trouble : Bool) (s : Rx) → AreBytes s.buf → Actions s.node (turn_node (after_read trouble s))
unfolding after_read
after_read-Actions true s h = one (Action.says Log.device_disconnected tt)
after_read-Actions false s h = process-Actions s h

read_input-Actions :
    (trouble : Bool) (result : ReadResult) (now : ℤ) (s : Rx)
    → IsRead result
    → AreBytes s.buf
    → Actions s.node (turn_node (read_input trouble result now s))
unfolding read_input
read_input-Actions trouble (ReadResult.bytes []) now s p h = after_read-Actions trouble s h
read_input-Actions trouble (ReadResult.bytes (b ∷ chunk)) now s p h =
    rw (lt→ltb 0 (length (b ∷ chunk)) (omega arith)) (
      join (take_chunk-Actions (b ∷ chunk) now s) (
        after_read-Actions trouble (take_chunk (b ∷ chunk) now s)
          (unfold take_chunk arrive in All-append IsByte s.buf (b ∷ chunk) h p.0)))
read_input-Actions trouble ReadResult.again now s p h = after_read-Actions trouble s h
read_input-Actions trouble ReadResult.failed now s p h = one (Action.says Log.read_error tt)

-- A turn of the read thread, on bytes.
pub read_turn-Actions :
    (poll_ms : ℕ) (poll : PollResult) (s : Rx)
    → IsPoll poll
    → AreBytes s.buf
    → Actions s.node (turn_node (read_turn poll_ms poll s))
unfolding read_turn
read_turn-Actions poll_ms PollResult.interrupted s p h = Actions.none_left
read_turn-Actions poll_ms PollResult.error s p h = one (Action.says Log.poll_error tt)
read_turn-Actions poll_ms PollResult.timeout s p h = silent_poll-Actions poll_ms s.node
read_turn-Actions poll_ms (PollResult.events true trouble result now) s p h =
    read_input-Actions trouble result now s p h
read_turn-Actions poll_ms (PollResult.events false trouble result now) s p h =
    after_read-Actions trouble s h
