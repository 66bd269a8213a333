-- ===== src/Node/System/Balance.antt =====
-- The bytes that were read pay for all that the receive path reports: 9 at least for each frame, and
-- one for each failed checksum.
use ros2_dji_serial_bridge.Base.{
  ℕ, ◌+◌, ◌*◌, ◌≤◌, ◌≡◌, refl, subst, ◌∙◌, arith, Bool, true, false, List, [], ◌∷◌, some,
  some_inverse, lt→ltb, length, length-drop, length-append, take, drop, get_or, ◌-◌,
}
use ros2_dji_serial_bridge.Base.Int.{ℤ, pos}
use ros2_dji_serial_bridge.Base.Bytes.{u64}
use ros2_dji_serial_bridge.Node.State.{Node, Event, Log, emit}
use ros2_dji_serial_bridge.Node.Tally.{tally, tally-append, weigh, nothing}
use ros2_dji_serial_bridge.Node.Consistent.{tally-odom_log, tally-first_pose_log}
use ros2_dji_serial_bridge.Node.Handlers.{
  handle_pose, handle_ref_sys, handle_ping, dispatch_incoming,
}
use ros2_dji_serial_bridge.Node.Receive.{
  Verdict, Rx, act, drop_front, deliver, rx_turn, scan, process_rx_buffer, total_len, frame_stamp,
}
use ros2_dji_serial_bridge.Node.Receive.Scan.{Supported, scan-Supported}
use ros2_dji_serial_bridge.Node.Receive.Loop.{process_induction, process_stop, process_turn}
use ros2_dji_serial_bridge.Node.Receive.Chunks.{arrive}
use ros2_dji_serial_bridge.Node.ReadLoop.{
  ReadResult, PollResult, Turn, note, silent_poll, take_chunk, after_read, read_input, read_turn,
}

-- What the events of a node cost in bytes.
abbrev pub cost : Node → ℕ
cost n =
    9 * (tally n.events).dispatched + (tally n.events).crc8_drops + (tally n.events).crc16_drops

-- `bytes` were read: the counter has them, and they cover the cost and what the buffer holds.
pub record IsBalanced (bytes : ℕ) (s : Rx) : Type 0 where
  pub counted : s.node.bytes_rx ≡ u64 bytes
  pub covered : cost s.node + length s.buf ≤ bytes

-- The same cost and bytes.
abbrev pub SameCost : Node → Node → Type 0
SameCost n m = (cost n ≡ cost m) × (n.bytes_rx ≡ m.bytes_rx)

-- A frame that is handed on.
abbrev OneFrame : Node → Node → Type 0
OneFrame n m = (cost n ≡ 9 + cost m) × (n.bytes_rx ≡ m.bytes_rx)

handle_pose-OneFrame :
    (payload : List ℕ) (len : ℕ) (stamp : ℤ) (n : Node)
    → OneFrame (handle_pose payload len stamp n) n
unfolding handle_pose tally weigh
handle_pose-OneFrame payload len stamp n =
    grind (arith, tally-append, tally-odom_log, tally-first_pose_log)

handle_ref_sys-OneFrame :
    (payload : List ℕ) (len : ℕ) (stamp : ℤ) (n : Node)
    → OneFrame (handle_ref_sys payload len stamp n) n
unfolding handle_ref_sys tally weigh
handle_ref_sys-OneFrame payload len stamp n = grind (arith, tally-append)

handle_ping-OneFrame :
    (payload : List ℕ) (len : ℕ) (stamp : ℤ) (n : Node)
    → OneFrame (handle_ping payload len stamp n) n
unfolding handle_ping tally weigh
handle_ping-OneFrame payload len stamp n = grind (arith, tally-append)

dispatch-OneFrame :
    (msg_type : ℕ) (payload : List ℕ) (len : ℕ) (stamp : ℤ) (n : Node)
    → OneFrame (dispatch_incoming msg_type payload len stamp n) n
unfolding dispatch_incoming tally weigh
dispatch-OneFrame msg_type payload len stamp n =
    grind (arith, tally-append, handle_pose-OneFrame, handle_ref_sys-OneFrame, handle_ping-OneFrame)

act-IsBalanced :
    (e : Bool) (v : Verdict) (bytes : ℕ) (s t : Rx)
    → Supported e v s.buf
    → act v s ≡ some t
    → IsBalanced bytes s
    → IsBalanced bytes t
unfolding act drop_front emit tally weigh deliver
act-IsBalanced e Verdict.too_short bytes s t h p b = cc
act-IsBalanced e Verdict.partial bytes s t h p b = cc
act-IsBalanced e Verdict.not_head bytes s t h p b = ground (arith, length-drop 1 s.buf)
act-IsBalanced e (Verdict.bad_crc8 x hdr) bytes s t h p b =
    grind (arith, tally-append, length-drop 1 s.buf)
act-IsBalanced e (Verdict.bad_crc16 x y hdr) bytes s t h p b =
    grind (arith, tally-append, length-drop 1 s.buf)
act-IsBalanced e (Verdict.complete hdr) bytes s t h p b =
    let one =
      dispatch-OneFrame hdr.msg_type (take hdr.data_length (drop 7 s.buf)) hdr.data_length
        (frame_stamp (get_or s.read_ns (total_len hdr - 1) (pos 0)) (total_len hdr) s.node)
        (record s.node { frames_rx = u64 (s.node.frames_rx + 1) }) in
    subst (IsBalanced bytes) (some_inverse _ t p) (record {
      counted = one.1 ∙ b.counted;
      covered = omega (arith, one, b.covered, h.0, length-drop (total_len hdr) s.buf);
    })

pub process-IsBalanced :
    (bytes : ℕ) (s : Rx) → IsBalanced bytes s → IsBalanced bytes (process_rx_buffer s)
process-IsBalanced bytes =
    process_induction (λ s. IsBalanced bytes s → IsBalanced bytes (process_rx_buffer s))
      (λ s h b. rw (process_stop s h) b)
      (λ s t p ih b.
        let e = s.node.enforce_crc in
        rw (process_turn s t p) (
          ih (
            act-IsBalanced e (scan e s.buf) bytes s t (scan-Supported e s.buf) (unfold rx_turn in p)
              b)))

take_chunk-IsBalanced :
    (chunk : List ℕ) (now : ℤ) (bytes : ℕ) (s : Rx)
    → IsBalanced bytes s
    → IsBalanced (bytes + length chunk) (take_chunk chunk now s)
unfolding take_chunk arrive emit tally weigh
take_chunk-IsBalanced chunk now bytes s b = grind (arith, tally-append, length-append s.buf chunk)

silent_poll-SameCost : (poll_ms : ℕ) (n : Node) → SameCost (silent_poll poll_ms n) n
unfolding silent_poll emit tally weigh
silent_poll-SameCost poll_ms n = grind (arith, tally-append)

-- A line of the read thread.
pub note-IsBalanced :
    (line : Log) (bytes : ℕ) (s : Rx)
    → tally (Event.logged line ∷ []) ≡ nothing
    → IsBalanced bytes s
    → IsBalanced bytes (note line s)
unfolding emit
note-IsBalanced line bytes s silent b =
    ground
      (arith, tally-append s.node.events (Event.logged line ∷ []), silent, b.counted, b.covered)

-- A turn, whether it goes on or breaks.
abbrev pub TurnBalanced : ℕ → Turn → Type 0
TurnBalanced bytes (Turn.next s) = IsBalanced bytes s
TurnBalanced bytes (Turn.break s) = IsBalanced bytes s

after_read-balanced :
    (trouble : Bool) (bytes : ℕ) (s : Rx)
    → IsBalanced bytes s
    → TurnBalanced bytes (after_read trouble s)
unfolding after_read
after_read-balanced true bytes s b =
    note-IsBalanced Log.device_disconnected bytes s (unfold tally weigh in refl) b
after_read-balanced false bytes s b = process-IsBalanced bytes s b

-- The bytes that a `read` gave.
abbrev pub result_bytes : ReadResult → List ℕ
result_bytes (ReadResult.bytes chunk) = chunk
result_bytes _ = []

abbrev pub turn_bytes : PollResult → List ℕ
turn_bytes (PollResult.events true trouble result now) = result_bytes result
turn_bytes _ = []

more_none : (bytes : ℕ) (s : Rx) → IsBalanced bytes s → IsBalanced (bytes + 0) s
more_none bytes s b =
    let same : bytes ≡ bytes + 0 = omega arith in subst (λ k. IsBalanced k s) same b

turn_more_none : (bytes : ℕ) (t : Turn) → TurnBalanced bytes t → TurnBalanced (bytes + 0) t
turn_more_none bytes (Turn.next s) b = more_none bytes s b
turn_more_none bytes (Turn.break s) b = more_none bytes s b

read_input-balanced :
    (trouble : Bool) (result : ReadResult) (now : ℤ) (bytes : ℕ) (s : Rx)
    → IsBalanced bytes s
    → TurnBalanced (bytes + length (result_bytes result)) (read_input trouble result now s)
unfolding read_input
read_input-balanced trouble (ReadResult.bytes []) now bytes s b =
    turn_more_none bytes (after_read trouble s) (after_read-balanced trouble bytes s b)
read_input-balanced trouble (ReadResult.bytes (c ∷ chunk)) now bytes s b =
    rw (lt→ltb 0 (length (c ∷ chunk)) (omega arith)) (
      after_read-balanced trouble (bytes + length (c ∷ chunk)) (take_chunk (c ∷ chunk) now s)
        (take_chunk-IsBalanced (c ∷ chunk) now bytes s b))
read_input-balanced trouble ReadResult.again now bytes s b =
    turn_more_none bytes (after_read trouble s) (after_read-balanced trouble bytes s b)
read_input-balanced trouble ReadResult.failed now bytes s b =
    more_none bytes _ (note-IsBalanced Log.read_error bytes s (unfold tally weigh in refl) b)

pub read_turn-balanced :
    (poll_ms : ℕ) (poll : PollResult) (bytes : ℕ) (s : Rx)
    → IsBalanced bytes s
    → TurnBalanced (bytes + length (turn_bytes poll)) (read_turn poll_ms poll s)
unfolding read_turn
read_turn-balanced poll_ms PollResult.interrupted bytes s b = more_none bytes s b
read_turn-balanced poll_ms PollResult.error bytes s b =
    more_none bytes _ (note-IsBalanced Log.poll_error bytes s (unfold tally weigh in refl) b)
read_turn-balanced poll_ms PollResult.timeout bytes s b =
    let same = silent_poll-SameCost poll_ms s.node in
    more_none bytes _
      (record { counted = same.1 ∙ b.counted; covered = omega (arith, same, b.covered) })
read_turn-balanced poll_ms (PollResult.events true trouble result now) bytes s b =
    read_input-balanced trouble result now bytes s b
read_turn-balanced poll_ms (PollResult.events false trouble result now) bytes s b =
    turn_more_none bytes (after_read trouble s) (after_read-balanced trouble bytes s b)
