-- ===== src/Node/Receive/Bounded.antt =====
-- How much the receive buffer holds between reads.
use ros2_dji_serial_bridge.Base.{
  ℕ, ◌<◌, ◌≡◌, sym, subst, arith, Bool, none, some, length, drop, All-drop,
}
use ros2_dji_serial_bridge.Base.Bytes.{AreBytes, IsByte}
use ros2_dji_serial_bridge.Node.Receive.{
  Verdict, scan, total_len, Rx, drop_front, act, rx_turn, process_rx_buffer,
}
use ros2_dji_serial_bridge.Node.Receive.Scan.{Supported, scan-Supported}
use ros2_dji_serial_bridge.Node.Receive.Sound.{read_header_widths}
use ros2_dji_serial_bridge.Node.Receive.Loop.{process_turn, process_stop, process_induction}

-- How many bytes a turn takes off the front.
abbrev taken_off : Verdict → ℕ
taken_off Verdict.too_short = 0
taken_off Verdict.partial = 0
taken_off (Verdict.complete hdr) = total_len hdr
taken_off _ = 1

act_drops : (v : Verdict) (s t : Rx) → act v s ≡ some t → t.buf ≡ drop (taken_off v) s.buf
unfolding act drop_front
act_drops Verdict.too_short s t p = cc
act_drops _ s t p = ground arith

pub rx_turn-AreBytes : (s t : Rx) → AreBytes s.buf → rx_turn s ≡ some t → AreBytes t.buf
unfolding rx_turn
rx_turn-AreBytes s t h p =
    let v = scan s.node.enforce_crc s.buf in
    subst AreBytes (sym (act_drops v s t p)) (All-drop IsByte (taken_off v) s.buf h)

-- A loop that stops waits for a header or for the rest of a frame.
stop_bound :
    (e : Bool) (v : Verdict) (s : Rx)
    → AreBytes s.buf
    → Supported e v s.buf
    → act v s ≡ none
    → length s.buf < 65544
unfolding act
stop_bound e Verdict.too_short s h sup p = omega arith
stop_bound e Verdict.partial s h sup p = omega (arith, read_header_widths s.buf h)
stop_bound e Verdict.not_head s h sup p = cc
stop_bound e (Verdict.bad_crc8 x hdr) s h sup p = cc
stop_bound e (Verdict.bad_crc16 x y hdr) s h sup p = cc
stop_bound e (Verdict.complete hdr) s h sup p = cc

-- Between reads the buffer holds less than one frame of the greatest length, 65544 bytes, whatever
-- bytes came in.
pub length-process-lt : (s : Rx) → AreBytes s.buf → length (process_rx_buffer s).buf < 65544
length-process-lt =
    process_induction (λ s. AreBytes s.buf → length (process_rx_buffer s).buf < 65544)
      (λ s h bytes. rw (process_stop s h) (stopped s h bytes))
      (λ s t p ih bytes. rw (process_turn s t p) (ih (rx_turn-AreBytes s t bytes p)))
  where
    stopped : (s : Rx) → rx_turn s ≡ none → AreBytes s.buf → length s.buf < 65544
    stopped s h bytes =
        let e = s.node.enforce_crc in
        stop_bound e (scan e s.buf) s bytes (scan-Supported e s.buf) (unfold rx_turn in h)

pub process-AreBytes : (s : Rx) → AreBytes s.buf → AreBytes (process_rx_buffer s).buf
process-AreBytes =
    process_induction (λ s. AreBytes s.buf → AreBytes (process_rx_buffer s).buf)
      (λ s h bytes. rw (process_stop s h) bytes)
      (λ s t p ih bytes. rw (process_turn s t p) (ih (rx_turn-AreBytes s t bytes p)))
