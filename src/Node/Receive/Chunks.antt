-- ===== src/Node/Receive/Chunks.antt =====
-- The bytes may arrive cut up in any way: the node ends in the same state.
use ros2_dji_serial_bridge.Base.{
  ℕ, ◌-◌, ◌≤◌, ◌≡◌, ◌≢◌, sym, ap, ◌∙◌, arith, Bool, List, ◌++◌, some, length, drop,
  drop-append_left, take-append_left, get_or-append_left, length-drop,
}
use ros2_dji_serial_bridge.Base.Int.{ℤ, pos}
use ros2_dji_serial_bridge.Node.Receive.{
  Verdict, scan, total_len, Rx, drop_front, deliver, act, rx_turn, process_rx_buffer,
}
use ros2_dji_serial_bridge.Protocol.{FrameHeader}
use ros2_dji_serial_bridge.Node.Receive.Scan.{Supported, scan-Supported, scan-append}
use ros2_dji_serial_bridge.Node.Receive.Loop.{
  IsParallel, rx_turn-IsParallel, process_turn, process_stop, process_induction,
}

-- The two `insert` calls of `read_loop`.
unfoldable pub arrive : List ℕ → List ℤ → Rx → Rx
arrive bytes times s = record s { buf = s.buf ++ bytes; read_ns = s.read_ns ++ times }

-- A frame that lies in the buffer is delivered alike, with the same stamp.
deliver-arrive :
    (hdr : FrameHeader) (bytes : List ℕ) (times : List ℤ) (s : Rx)
    → IsParallel s
    → total_len hdr ≤ length s.buf
    → deliver hdr (arrive bytes times s) ≡ deliver hdr s
unfolding deliver arrive
deliver-arrive hdr bytes times s par h = ground (
  arith,
  drop-append_left 7 s.buf bytes,
  take-append_left hdr.data_length (drop 7 s.buf) bytes,
  length-drop 7 s.buf,
  get_or-append_left s.read_ns times (total_len hdr - 1) (pos 0),
)

act-arrive :
    (e : Bool) (v : Verdict) (bytes : List ℕ) (times : List ℤ) (s t : Rx)
    → IsParallel s
    → Supported e v s.buf
    → act v s ≡ some t
    → act v (arrive bytes times s) ≡ some (arrive bytes times t)
unfolding act arrive drop_front
act-arrive e Verdict.too_short bytes times s t par h p = cc
act-arrive e Verdict.partial bytes times s t par h p = cc
act-arrive e Verdict.not_head bytes times s t par h p =
    ground (arith, drop-append_left 1 s.buf bytes, drop-append_left 1 s.read_ns times)
act-arrive e (Verdict.bad_crc8 x hdr) bytes times s t par h p =
    ground (arith, drop-append_left 1 s.buf bytes, drop-append_left 1 s.read_ns times)
act-arrive e (Verdict.bad_crc16 x y hdr) bytes times s t par h p =
    ground (arith, drop-append_left 1 s.buf bytes, drop-append_left 1 s.read_ns times)
act-arrive e (Verdict.complete hdr) bytes times s t par h p = ground (
  arith,
  deliver-arrive hdr bytes times s par h.0,
  drop-append_left (total_len hdr) s.buf bytes,
  drop-append_left (total_len hdr) s.read_ns times,
)

-- A wait is no turn.
rx_turn_not_wait :
    (s t : Rx)
    → rx_turn s ≡ some t
    → (scan s.node.enforce_crc s.buf ≢ Verdict.too_short)
      × (scan s.node.enforce_crc s.buf ≢ Verdict.partial)
unfolding rx_turn act
rx_turn_not_wait s t p = ground arith

rx_turn-arrive :
    (bytes : List ℕ) (times : List ℤ) (s t : Rx)
    → IsParallel s
    → rx_turn s ≡ some t
    → rx_turn (arrive bytes times s) ≡ some (arrive bytes times t)
unfolding rx_turn arrive
rx_turn-arrive bytes times s t par p =
    let e = s.node.enforce_crc in
    let (long, whole) = rx_turn_not_wait s t p in
    ap (λ v. act v (arrive bytes times s)) (scan-append e s.buf bytes long whole)
    ∙ act-arrive e (scan e s.buf) bytes times s t par (scan-Supported e s.buf) p

-- Processing what has arrived before more bytes come ends as if all had come at once: the same
-- leftover, counters, published messages and log lines, where each byte has its read time.
pub process_chunks :
    (bytes : List ℕ) (times : List ℤ) (s : Rx)
    → IsParallel s
    → process_rx_buffer (arrive bytes times (process_rx_buffer s))
      ≡ process_rx_buffer (arrive bytes times s)
process_chunks bytes times =
    process_induction
      (λ s.
        IsParallel s
        → process_rx_buffer (arrive bytes times (process_rx_buffer s))
          ≡ process_rx_buffer (arrive bytes times s))
      (λ s stop par. rw (process_stop s stop))
      (λ s t p ih par.
        ap (λ r. process_rx_buffer (arrive bytes times r)) (process_turn s t p)
        ∙ ih (rx_turn-IsParallel s t par p)
        ∙ sym (process_turn _ _ (rx_turn-arrive bytes times s t par p)))
