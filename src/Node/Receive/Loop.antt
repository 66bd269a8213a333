-- ===== src/Node/Receive/Loop.antt =====
-- The receive loop: every turn takes at least a byte, so its fuel is enough, and it stops only where
-- the source's loop stops.
use ros2_dji_serial_bridge.Base.{
  ℕ, zero, suc, ◌≤◌, ◌<◌, ◌≡◌, refl, sym, ap, ◌∙◌, arith, Bool, [], none, some, length, length-drop,
  length_zero, Option-cases, inl, inr,
}
use ros2_dji_serial_bridge.Node.Receive.{
  Verdict, scan, total_len, Rx, drop_front, act, rx_turn, rx_loop, process_rx_buffer,
}
use ros2_dji_serial_bridge.Node.Receive.Scan.{Supported, scan-Supported}

-- Both vectors have a time for each byte.
abbrev pub IsParallel : Rx → Type 0
IsParallel s = length s.read_ns ≡ length s.buf

act_shrinks :
    (e : Bool) (v : Verdict) (s t : Rx)
    → Supported e v s.buf
    → act v s ≡ some t
    → length t.buf < length s.buf
unfolding act drop_front
act_shrinks e Verdict.too_short s t h p = cc
act_shrinks e Verdict.partial s t h p = cc
act_shrinks e Verdict.not_head s t h p = ground (arith, length-drop 1 s.buf)
act_shrinks e (Verdict.bad_crc8 x hdr) s t h p = ground (arith, length-drop 1 s.buf)
act_shrinks e (Verdict.bad_crc16 x y hdr) s t h p = ground (arith, length-drop 1 s.buf)
act_shrinks e (Verdict.complete hdr) s t h p = ground (arith, length-drop (total_len hdr) s.buf)

act-IsParallel : (v : Verdict) (s t : Rx) → IsParallel s → act v s ≡ some t → IsParallel t
unfolding act drop_front
act-IsParallel Verdict.too_short s t h p = cc
act-IsParallel Verdict.partial s t h p = cc
act-IsParallel Verdict.not_head s t h p =
    ground (arith, length-drop 1 s.buf, length-drop 1 s.read_ns)
act-IsParallel (Verdict.bad_crc8 x hdr) s t h p =
    ground (arith, length-drop 1 s.buf, length-drop 1 s.read_ns)
act-IsParallel (Verdict.bad_crc16 x y hdr) s t h p =
    ground (arith, length-drop 1 s.buf, length-drop 1 s.read_ns)
act-IsParallel (Verdict.complete hdr) s t h p =
    ground (arith, length-drop (total_len hdr) s.buf, length-drop (total_len hdr) s.read_ns)

pub rx_turn_shrinks : (s t : Rx) → rx_turn s ≡ some t → length t.buf < length s.buf
unfolding rx_turn
rx_turn_shrinks s t p =
    let e = s.node.enforce_crc in act_shrinks e (scan e s.buf) s t (scan-Supported e s.buf) p

pub rx_turn-IsParallel : (s t : Rx) → IsParallel s → rx_turn s ≡ some t → IsParallel t
unfolding rx_turn
rx_turn-IsParallel s t h p = act-IsParallel (scan s.node.enforce_crc s.buf) s t h p

rx_turn-empty : (s : Rx) → s.buf ≡ [] → rx_turn s ≡ none
rx_turn-empty s e = elim (Option-cases (rx_turn s)) [
  | inl stop ↦ stop
  | inr (t, p) ↦ absurd (omega (arith, rx_turn_shrinks s t p, ap length e))
]

rx_loop_stop : (f : ℕ) (s : Rx) → rx_turn s ≡ none → rx_loop f s ≡ s
unfolding rx_loop
rx_loop_stop zero s h = refl
rx_loop_stop (suc f) s h = rw (h, rx_loop) refl

rx_loop_turn : (f : ℕ) (s t : Rx) → rx_turn s ≡ some t → rx_loop (suc f) s ≡ rx_loop f t
unfolding rx_loop
rx_loop_turn f s t h = rw (h, rx_loop) refl

-- Fuel beyond the length of the buffer changes nothing.
rx_loop_fuel : (f g : ℕ) (s : Rx) → length s.buf ≤ f → length s.buf ≤ g → rx_loop f s ≡ rx_loop g s
unfolding rx_loop
rx_loop_fuel zero g s hf hg =
    let stop : rx_turn s ≡ none = rx_turn-empty s (length_zero s.buf hf) in
    sym (rx_loop_stop g s stop)
rx_loop_fuel (suc f) zero s hf hg = rx_loop_stop (suc f) s (rx_turn-empty s (length_zero s.buf hg))
rx_loop_fuel (suc f) (suc g) s hf hg = elim (Option-cases (rx_turn s)) [
  | inl stop ↦ rx_loop_stop (suc f) s stop ∙ sym (rx_loop_stop (suc g) s stop)
  | inr (t, p) ↦
      let less = rx_turn_shrinks s t p in
      rx_loop_turn f s t p
      ∙ rx_loop_fuel f g t (omega arith) (omega arith)
      ∙ sym (rx_loop_turn g s t p)
]

-- One turn of the source's loop, and where it ends.
pub process_turn : (s t : Rx) → rx_turn s ≡ some t → process_rx_buffer s ≡ process_rx_buffer t
unfolding process_rx_buffer
process_turn s t p =
    let less = rx_turn_shrinks s t p in
    rx_loop_fuel (length s.buf) (suc (length s.buf)) s (omega arith) (omega arith)
    ∙ rx_loop_turn (length s.buf) s t p
    ∙ rx_loop_fuel (length s.buf) (length t.buf) t (omega arith) (omega arith)

pub process_stop : (s : Rx) → rx_turn s ≡ none → process_rx_buffer s ≡ s
unfolding process_rx_buffer
process_stop s h = rx_loop_stop (length s.buf) s h

-- Induction along the loop: what holds where it ends, and is passed back by each turn, holds.
pub process_induction {κ} :
    (P : Rx → Type κ)
    → ((s : Rx) → rx_turn s ≡ none → P s)
    → ((s t : Rx) → rx_turn s ≡ some t → P t → P s)
    → (s : Rx) → P s
process_induction P stop turn s = below (length s.buf) s (omega arith)
  where
    below : (f : ℕ) (s : Rx) → length s.buf ≤ f → P s
    below zero s h = stop s (rx_turn-empty s (length_zero s.buf h))
    below (suc f) s h = elim (Option-cases (rx_turn s)) [
      | inl e ↦ stop s e
      | inr (t, e) ↦ let less = rx_turn_shrinks s t e in turn s t e (below f t (omega arith))
    ]

-- The loop ends by its own condition or by the wait for the rest of a frame, never by fuel.
pub process-ends : (s : Rx) → rx_turn (process_rx_buffer s) ≡ none
process-ends =
    process_induction (λ s. rx_turn (process_rx_buffer s) ≡ none) (λ s h. rw (process_stop s h) h)
      (λ s t e ih. rw (process_turn s t e) ih)

pub process-IsParallel : (s : Rx) → IsParallel s → IsParallel (process_rx_buffer s)
process-IsParallel =
    process_induction (λ s. IsParallel s → IsParallel (process_rx_buffer s))
      (λ s h p. rw (process_stop s h) p)
      (λ s t e ih p. rw (process_turn s t e) (ih (rx_turn-IsParallel s t p e)))
