-- ===== src/Node/System/Stamps.antt =====
-- The arithmetic of `frame_stamp` stays within 64 bits in any run.
use native.Mathlib.Nat.{div-le_self, mul-le-mul}
use ros2_dji_serial_bridge.Base.{
  ℕ, ◌*◌, ◌^◌, ◌<◌, ◌≤◌, ◌≡◌, sym, ap, subst, ◌∙◌, arith, ltb, if◌then◌else◌,
}
use ros2_dji_serial_bridge.Base.Int.{ℤ, pos, negsuc, pos_part, ◌+ℤ◌, ◌-ℤ◌}
use ros2_dji_serial_bridge.Protocol.{FrameHeader}
use ros2_dji_serial_bridge.Node.State.{Node, emit}
use ros2_dji_serial_bridge.Node.Handlers.{publish_pose, publish_ref_sys, publish_ping}
use ros2_dji_serial_bridge.Node.Transmit.{send_frame}
use ros2_dji_serial_bridge.Node.Receive.{total_len, frame_stamp}
use ros2_dji_serial_bridge.Node.Start.{
  Termios, Device, Platform, Parameters, Started, construct, wire_ns,
}
use ros2_dji_serial_bridge.Node.Actions.{View, Action, actions_keep}
use ros2_dji_serial_bridge.Node.System.{System, Reach, launched}
use ros2_dji_serial_bridge.Node.System.Runs.{constructed_timed, run-Actions}

Action-wire : (w : ℕ) (n t : Node) → Action n t → n.byte_wire_ns ≡ w → t.byte_wire_ns ≡ w
Action-wire w n t (Action.counts u same) h = ap (λ (v : View). v.byte_wire_ns) same ∙ h
Action-wire w n t (Action.says line plain) h = unfold emit in h
Action-wire w n t (Action.relocalizes count x y) h = unfold emit in h
Action-wire w n t (Action.poses raw stamp fits) h = unfold publish_pose in h
Action-wire w n t (Action.ref_syses raw stamp fits) h = unfold publish_ref_sys in h
Action-wire w n t (Action.pings number stamp fits) h = unfold publish_ping in h
Action-wire w n t (Action.sends write m payload short bytes) h =
    unfold send_frame emit in ground arith

wire_ns-le : (baud : ℤ) → wire_ns baud ≤ 10000000000
unfolding wire_ns
wire_ns-le baud = div-le_self 10000000000 (if ltb 1 (pos_part baud) then pos_part baud else 1)

-- The range of `int64_t`.
abbrev pub IsInt64 : ℤ → Type 0
IsInt64 (pos n) = n < 2 ^ 63
IsInt64 (negsuc n) = n < 2 ^ 63

frame_time-lt : (size wire : ℕ) → size < 65545 → wire ≤ 10000000000 → size * wire < 2 ^ 50
frame_time-lt size wire h k =
    let product : size * wire ≤ 65544 * 10000000000 = mul-le-mul {n₂ = 65544} (omega arith) k in
    omega arith

frame_stamp-IsInt64 :
    (read_ns size : ℕ) (n : Node)
    → read_ns < 2 ^ 63
    → size * n.byte_wire_ns < 2 ^ 50
    → IsInt64 (frame_stamp (pos read_ns) size n)
      × (frame_stamp (pos read_ns) size n +ℤ pos (size * n.byte_wire_ns) ≡ pos read_ns)
unfolding frame_stamp ◌-ℤ◌ ◌+ℤ◌
frame_stamp-IsInt64 read_ns size n h k = (ground arith, ground arith)

-- From a constructor that succeeds, through any steps of the read thread, the four callbacks and the
-- timer in any order: the wire time of a byte is the one of the configured baud rate, the wire time
-- of any frame that a header can announce is below 2 ^ 50 nanoseconds, and for any read time that
-- 64 bits hold and that is not negative, the frame's stamp is within the signed 64 bits, and the
-- frame's wire time after it comes the read time.
pub Reach-frame_stamp :
    (make_raw : Termios → Termios) (sys : Platform) (p : Parameters)
    → (poll_ms : ℕ) (to_float : ℕ → ℕ) (tty : Device) (period : ℤ) (n : Node) (s : System)
    → (hdr : FrameHeader) (read_ns : ℕ) → construct make_raw sys p ≡ Started.ready tty period n
    → Reach poll_ms to_float (launched n) s
    → hdr.data_length < 2 ^ 16
    → read_ns < 2 ^ 63
    → (s.rx.node.byte_wire_ns ≡ wire_ns p.baudrate)
      × (total_len hdr * s.rx.node.byte_wire_ns < 2 ^ 50)
      × IsInt64 (frame_stamp (pos read_ns) (total_len hdr) s.rx.node)
      × (frame_stamp (pos read_ns) (total_len hdr) s.rx.node
            +ℤ pos (total_len hdr * s.rx.node.byte_wire_ns)
          ≡ pos read_ns)
Reach-frame_stamp make_raw sys p poll_ms to_float tty period n s hdr read_ns e r short h =
    let wire : s.rx.node.byte_wire_ns ≡ wire_ns p.baudrate =
      actions_keep (λ m. m.byte_wire_ns ≡ wire_ns p.baudrate) (Action-wire (wire_ns p.baudrate))
        (run-Actions make_raw sys p poll_ms to_float tty period n s e r)
        (constructed_timed make_raw sys p e) in
    let small : s.rx.node.byte_wire_ns ≤ 10000000000 =
      subst (λ w. w ≤ 10000000000) (sym wire) (wire_ns-le p.baudrate) in
    let time = frame_time-lt (total_len hdr) s.rx.node.byte_wire_ns (omega arith) small in
    let (range, sum) = frame_stamp-IsInt64 read_ns (total_len hdr) s.rx.node h time in
    (wire, time, range, sum)
