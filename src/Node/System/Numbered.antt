-- ===== src/Node/System/Numbered.antt =====
-- The frames that the node writes in any run: wire frames, numbered in order.
use ros2_dji_serial_bridge.Base.{
  ℕ, ◌+◌, ◌%◌, length, ◌==◌, lt→ltb, ◌≡◌, refl, ap, sym, subst, arith, ◌∙◌, append-nil,
  some_inverse, Bool, true, false, List, [], ◌∷◌, some,
}
use ros2_dji_serial_bridge.Base.Int.{ℤ}
use ros2_dji_serial_bridge.Node.State.{Node, Event, emit}
use ros2_dji_serial_bridge.Node.Transmit.Laws.{frames_written, frames_written-append}
use ros2_dji_serial_bridge.Node.Callbacks.Frames.{
  IsNumbered, AreNumbered, tested-IsNumbered, same_frames, IsNumbered-same, emit_line-IsNumbered,
  cv_target_callback-IsNumbered, ping_callback-IsNumbered, nav_goal_callback-IsNumbered,
  relocalize_callback-IsNumbered,
}
use ros2_dji_serial_bridge.Node.Receive.{
  Rx, Verdict, act, deliver, drop_front, rx_turn, scan, process_rx_buffer,
}
use ros2_dji_serial_bridge.Node.Receive.Loop.{process_induction, process_stop, process_turn}
use ros2_dji_serial_bridge.Base.Bytes.{u64}
use ros2_dji_serial_bridge.Node.Receive.Chunks.{arrive}
use ros2_dji_serial_bridge.Node.ReadLoop.{
  ReadResult, PollResult, Turn, silent_poll, take_chunk, after_read, read_input, read_turn,
}
use ros2_dji_serial_bridge.Node.Diagnostics.{print_diagnostics}
use ros2_dji_serial_bridge.Node.Tally.{Tally, tally, weigh, nothing}
use ros2_dji_serial_bridge.Node.Start.{Termios, Device, Platform, Parameters, Started, construct}
use ros2_dji_serial_bridge.Node.System.Invariant.{constructed}
use ros2_dji_serial_bridge.Node.System.{System, Step, Reach, launched}
use ros2_dji_serial_bridge.Node.Handlers.{
  dispatch_incoming, handle_pose, handle_ref_sys, handle_ping, publish_pose, odom_log,
  first_pose_log,
}

-- What the handlers do hands nothing to `write`.
dispatch-frames :
    (msg_type : ℕ) (payload : List ℕ) (len : ℕ) (stamp : ℤ) (n : Node)
    → ((dispatch_incoming msg_type payload len stamp n).tx_seq ≡ n.tx_seq)
      × (frames_written (dispatch_incoming msg_type payload len stamp n).events
          ≡ frames_written n.events)
unfolding dispatch_incoming handle_pose handle_ref_sys handle_ping publish_pose odom_log
    first_pose_log emit
dispatch-frames msg_type payload len stamp n = grind (arith, frames_written-append, append-nil)

dispatch-IsNumbered :
    (msg_type : ℕ) (payload : List ℕ) (len : ℕ) (stamp : ℤ) (n : Node)
    → IsNumbered n
    → IsNumbered (dispatch_incoming msg_type payload len stamp n)
dispatch-IsNumbered msg_type payload len stamp n h =
    let (seq, frames) = dispatch-frames msg_type payload len stamp n in
    IsNumbered-same n (dispatch_incoming msg_type payload len stamp n) seq frames h

act-IsNumbered : (v : Verdict) (s t : Rx) → act v s ≡ some t → IsNumbered s.node → IsNumbered t.node
unfolding act drop_front deliver emit
act-IsNumbered Verdict.too_short s t p h = cc
act-IsNumbered Verdict.partial s t p h = cc
act-IsNumbered Verdict.not_head s t p h =
    subst (λ (r : Rx). IsNumbered r.node) (some_inverse _ t p) h
act-IsNumbered (Verdict.bad_crc8 x hdr) s t p h =
    subst (λ (r : Rx). IsNumbered r.node) (some_inverse _ t p)
      (emit_line-IsNumbered _ _ (same_frames s.node _ refl refl h))
act-IsNumbered (Verdict.bad_crc16 x y hdr) s t p h =
    subst (λ (r : Rx). IsNumbered r.node) (some_inverse _ t p)
      (emit_line-IsNumbered _ _ (same_frames s.node _ refl refl h))
act-IsNumbered (Verdict.complete hdr) s t p h =
    subst (λ (r : Rx). IsNumbered r.node) (some_inverse _ t p)
      (dispatch-IsNumbered _ _ _ _ _ (same_frames s.node _ refl refl h))

pub process-IsNumbered : (s : Rx) → IsNumbered s.node → IsNumbered (process_rx_buffer s).node
process-IsNumbered =
    process_induction (λ s. IsNumbered s.node → IsNumbered (process_rx_buffer s).node)
      (λ s h c. rw (process_stop s h) c)
      (λ s t p ih c.
        rw (process_turn s t p)
          (ih (act-IsNumbered (scan s.node.enforce_crc s.buf) s t (unfold rx_turn in p) c)))

-- A turn of the read thread hands nothing to `write`.
abbrev TurnIsNumbered : Turn → Type 0
TurnIsNumbered (Turn.next s) = IsNumbered s.node
TurnIsNumbered (Turn.break s) = IsNumbered s.node

silent_poll-IsNumbered :
    (poll_ms : ℕ) (n : Node) → IsNumbered n → IsNumbered (silent_poll poll_ms n)
unfolding silent_poll
silent_poll-IsNumbered poll_ms n h =
    let counted =
      same_frames n (record n { silent_polls = u64 (n.silent_polls + 1) }) refl refl h in
    tested-IsNumbered (u64 (n.silent_polls + 1) == 100) _ _ (emit_line-IsNumbered _ _ counted)
      counted

take_chunk-IsNumbered :
    (chunk : List ℕ) (now : ℤ) (s : Rx)
    → IsNumbered s.node
    → IsNumbered (take_chunk chunk now s).node
unfolding take_chunk arrive
take_chunk-IsNumbered chunk now s h =
    let counted = record s.node {
      bytes_rx = u64 (s.node.bytes_rx + length chunk);
      silent_polls = 0;
    } in
    let same = same_frames s.node counted refl refl h in
    tested-IsNumbered (s.node.bytes_rx == 0) _ _ (emit_line-IsNumbered _ _ same) same

after_read-IsNumbered :
    (trouble : Bool) (s : Rx) → IsNumbered s.node → TurnIsNumbered (after_read trouble s)
unfolding after_read
after_read-IsNumbered true s h = emit_line-IsNumbered _ _ h
after_read-IsNumbered false s h = process-IsNumbered s h

read_turn-IsNumbered :
    (poll_ms : ℕ) (poll : PollResult) (s : Rx)
    → IsNumbered s.node
    → TurnIsNumbered (read_turn poll_ms poll s)
unfolding read_turn read_input
read_turn-IsNumbered poll_ms PollResult.interrupted s h = h
read_turn-IsNumbered poll_ms PollResult.error s h = emit_line-IsNumbered _ _ h
read_turn-IsNumbered poll_ms PollResult.timeout s h = silent_poll-IsNumbered poll_ms s.node h
read_turn-IsNumbered poll_ms (PollResult.events false trouble result now) s h =
    after_read-IsNumbered trouble s h
read_turn-IsNumbered poll_ms (PollResult.events true trouble ReadResult.again now) s h =
    after_read-IsNumbered trouble s h
read_turn-IsNumbered poll_ms (PollResult.events true trouble ReadResult.failed now) s h =
    emit_line-IsNumbered _ _ h
read_turn-IsNumbered poll_ms (PollResult.events true trouble (ReadResult.bytes []) now) s h =
    after_read-IsNumbered trouble s h
read_turn-IsNumbered poll_ms (PollResult.events true trouble (ReadResult.bytes (b ∷ bs)) now) s h =
    rw (lt→ltb 0 (length (b ∷ bs)) (omega arith)) (
      after_read-IsNumbered trouble (take_chunk (b ∷ bs) now s)
        (take_chunk-IsNumbered (b ∷ bs) now s h))

Step-IsNumbered :
    {poll_ms : ℕ} {to_float : ℕ → ℕ} {s t : System}
    → Step poll_ms to_float s t
    → IsNumbered s.rx.node
    → IsNumbered t.rx.node
Step-IsNumbered {poll_ms} {to_float} {s} (Step.read poll t on p e) h =
    subst TurnIsNumbered e (read_turn-IsNumbered poll_ms poll s.rx h)
Step-IsNumbered {poll_ms} {to_float} {s} (Step.break poll t on p e) h =
    emit_line-IsNumbered _ _ (subst TurnIsNumbered e (read_turn-IsNumbered poll_ms poll s.rx h))
Step-IsNumbered {poll_ms} {to_float} {s} (Step.nav_goal write msg) h =
    nav_goal_callback-IsNumbered write to_float msg s.rx.node h
Step-IsNumbered {poll_ms} {to_float} {s} (Step.cv_target write msg) h =
    cv_target_callback-IsNumbered write msg s.rx.node h
Step-IsNumbered {poll_ms} {to_float} {s} (Step.relocalize write msg) h =
    relocalize_callback-IsNumbered write to_float msg s.rx.node h
Step-IsNumbered {poll_ms} {to_float} {s} (Step.ping write msg byte) h =
    ping_callback-IsNumbered write msg s.rx.node byte h
Step-IsNumbered {poll_ms} {to_float} {s} Step.timer h =
    unfold print_diagnostics in emit_line-IsNumbered _ _ h

frames_written-tally : (es : List Event) → length (frames_written es) ≡ (tally es).writes
unfolding tally weigh
frames_written-tally [] = refl
frames_written-tally (Event.logged line ∷ es) = ground (arith, frames_written-tally es)
frames_written-tally (Event.published_pose m ∷ es) = omega (arith, frames_written-tally es)
frames_written-tally (Event.published_ref_sys m ∷ es) = omega (arith, frames_written-tally es)
frames_written-tally (Event.published_ping m ∷ es) = omega (arith, frames_written-tally es)
frames_written-tally (Event.wrote frame result ∷ es) = omega (arith, frames_written-tally es)

no_frames : (frames : List (List ℕ)) → length frames ≡ 0 → frames ≡ []
no_frames [] h = refl
no_frames (f ∷ frames) h = absurd (omega (arith, h))

launched-IsNumbered : (n : Node) → tally n.events ≡ nothing → n.tx_seq ≡ 0 → IsNumbered n
launched-IsNumbered n silent zero_seq = record {
  next = zero_seq ∙ ap (λ (xs : List (List ℕ)). length xs % 256) (sym none_written);
  frames = subst (AreNumbered 0) (sym none_written) tt;
}
  where
    none_written : frames_written n.events ≡ []
    none_written =
        no_frames (frames_written n.events)
          (frames_written-tally n.events ∙ ap (λ (t : Tally). t.writes) silent)

run-IsNumbered :
    {poll_ms : ℕ} {to_float : ℕ → ℕ} {s t : System}
    → IsNumbered s.rx.node
    → Reach poll_ms to_float s t
    → IsNumbered t.rx.node
run-IsNumbered h Reach.here = h
run-IsNumbered h (Reach.later r st) = Step-IsNumbered st (run-IsNumbered h r)

-- From a constructor that succeeds, through any steps of the read thread, the four callbacks and the
-- timer in any order, and whatever `write` gives: what was handed to `write` are frames of the wire
-- format, the k-th (from 0) with the sequence number k modulo 256, and the next number is the count
-- of them modulo 256.
pub Reach-IsNumbered :
    (make_raw : Termios → Termios) (sys : Platform) (p : Parameters)
    → (poll_ms : ℕ) (to_float : ℕ → ℕ) (tty : Device) (period : ℤ) (n : Node) (s : System)
    → construct make_raw sys p ≡ Started.ready tty period n
    → Reach poll_ms to_float (launched n) s
    → IsNumbered s.rx.node
Reach-IsNumbered make_raw sys p poll_ms to_float tty period n s e r =
    let (_, silent, zero_seq) = constructed make_raw sys p e in
    run-IsNumbered (launched-IsNumbered n silent zero_seq) r
