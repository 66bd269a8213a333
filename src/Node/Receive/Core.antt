-- ===== src/Node/Receive/Core.antt =====
-- What the receive loop works on: counters and log lines have no say in what it publishes.
use ros2_dji_serial_bridge.Base.{
  ℕ, ◌+◌, ◌-◌, ◌*◌, ◌==◌, ◌&&◌, if◌then◌else◌, ◌≡◌, refl, sym, ap, ap₂, subst, ◌∙◌, arith, List, [],
  ◌∷◌, ◌++◌, Option, none, some, some_inverse, take, drop, get_or,
}
use ros2_dji_serial_bridge.Base.Int.{ℤ, pos, ◌-ℤ◌}
use ros2_dji_serial_bridge.Base.Bytes.{byte_at, u64}
use ros2_dji_serial_bridge.Protocol.{FrameHeader, read_pose, read_ref_sys}
use ros2_dji_serial_bridge.Node.State.{Node, Event, Log, emit}
use ros2_dji_serial_bridge.Node.Handlers.{
  pose_msg, ref_sys_msg, odom_log, first_pose_log, publish_pose, handle_pose, handle_ref_sys,
  handle_ping, dispatch_incoming,
}
use ros2_dji_serial_bridge.Node.Handlers.Laws.{publications, publications-append}
use ros2_dji_serial_bridge.Node.Receive.{
  Verdict, scan, total_len, Rx, drop_front, deliver, act, rx_turn, process_rx_buffer, frame_stamp,
}
use ros2_dji_serial_bridge.Node.Receive.Loop.{process_turn, process_stop, process_induction}

-- Two states of the read thread that publish alike.
pub record AreAlike (s t : Rx) : Type 0 where
  pub buf : s.buf ≡ t.buf
  pub read_ns : s.read_ns ≡ t.read_ns
  pub enforce_crc : s.node.enforce_crc ≡ t.node.enforce_crc
  pub byte_wire_ns : s.node.byte_wire_ns ≡ t.node.byte_wire_ns
  pub published : publications s.node.events ≡ publications t.node.events

pub dispatch-settings :
    (msg_type : ℕ) (payload : List ℕ) (len : ℕ) (stamp : ℤ) (n : Node)
    → ((dispatch_incoming msg_type payload len stamp n).enforce_crc ≡ n.enforce_crc)
      × ((dispatch_incoming msg_type payload len stamp n).byte_wire_ns ≡ n.byte_wire_ns)
unfolding dispatch_incoming handle_pose handle_ref_sys handle_ping publish_pose emit
dispatch-settings msg_type payload len stamp n = ground arith

-- What `dispatch_incoming` publishes, whatever the node.
made : (msg_type : ℕ) → List ℕ → (len : ℕ) → ℤ → List Event
made msg_type payload len stamp =
    if msg_type == 2 && len == 25
    then Event.published_pose (pose_msg stamp (read_pose payload)) ∷ []
    else if msg_type == 3 && len == 11
    then Event.published_ref_sys (ref_sys_msg stamp (read_ref_sys payload)) ∷ []
    else if msg_type == 5 && len == 1
    then Event.published_ping (record { stamp = stamp; number = byte_at payload 0 }) ∷ []
    else []

dispatch-made :
    (msg_type : ℕ) (payload : List ℕ) (len : ℕ) (stamp : ℤ) (n : Node)
    → publications (dispatch_incoming msg_type payload len stamp n).events
      ≡ publications n.events ++ made msg_type payload len stamp
unfolding dispatch_incoming handle_pose handle_ref_sys handle_ping publish_pose odom_log
    first_pose_log made emit
dispatch-made msg_type payload len stamp n = grind (arith, publications-append)

dispatch-alike :
    (msg_type : ℕ) (payload : List ℕ) (len : ℕ) (stamp : ℤ) (n m : Node)
    → publications n.events ≡ publications m.events
    → publications (dispatch_incoming msg_type payload len stamp n).events
      ≡ publications (dispatch_incoming msg_type payload len stamp m).events
dispatch-alike msg_type payload len stamp n m h =
    dispatch-made msg_type payload len stamp n
    ∙ ap (λ es. es ++ made msg_type payload len stamp) h
    ∙ sym (dispatch-made msg_type payload len stamp m)

pub AreAlike-refl : (s : Rx) → AreAlike s s
AreAlike-refl s = record {
  buf = refl;
  read_ns = refl;
  enforce_crc = refl;
  byte_wire_ns = refl;
  published = refl;
}

pub AreAlike-trans : {s t u : Rx} → AreAlike s t → AreAlike t u → AreAlike s u
AreAlike-trans h k = record {
  buf = h.buf ∙ k.buf;
  read_ns = h.read_ns ∙ k.read_ns;
  enforce_crc = h.enforce_crc ∙ k.enforce_crc;
  byte_wire_ns = h.byte_wire_ns ∙ k.byte_wire_ns;
  published = h.published ∙ k.published;
}

deliver-published :
    (hdr : FrameHeader) (s t : Rx)
    → AreAlike s t
    → publications (deliver hdr s).events ≡ publications (deliver hdr t).events
unfolding deliver frame_stamp
deliver-published hdr s t h =
    let counted = λ (n : Node). record n { frames_rx = u64 (n.frames_rx + 1) } in
    let start = λ (times : List ℤ) (wire : ℕ).
      get_or times (total_len hdr - 1) (pos 0) -ℤ pos (total_len hdr * wire) in
    let payload = λ (buf : List ℕ). take hdr.data_length (drop 7 buf) in
    dispatch-alike hdr.msg_type (payload s.buf) hdr.data_length
      (start s.read_ns s.node.byte_wire_ns) (counted s.node) (counted t.node) h.published
    ∙ ap₂
        (λ bytes stamp.
          publications
            (dispatch_incoming hdr.msg_type bytes hdr.data_length stamp (counted t.node)).events)
        (ap payload h.buf) (ap₂ start h.read_ns h.byte_wire_ns)

pub deliver-settings :
    (hdr : FrameHeader) (s : Rx)
    → ((deliver hdr s).enforce_crc ≡ s.node.enforce_crc)
      × ((deliver hdr s).byte_wire_ns ≡ s.node.byte_wire_ns)
unfolding deliver
deliver-settings hdr s = dispatch-settings _ _ _ _ _

abbrev BothAlike : Option Rx → Option Rx → Type 0
BothAlike none none = Unit {0}
BothAlike (some s) (some t) = AreAlike s t
BothAlike _ _ = ⊥

pub same_but_line :
    (xs ys : List Event) (line : Log)
    → publications xs ≡ publications ys
    → publications (xs ++ (Event.logged line ∷ [])) ≡ publications (ys ++ (Event.logged line ∷ []))
same_but_line xs ys line h =
    publications-append xs (Event.logged line ∷ [])
    ∙ ap (λ es. es ++ []) h
    ∙ sym (publications-append ys (Event.logged line ∷ []))

act-alike : (v : Verdict) (s t : Rx) → AreAlike s t → BothAlike (act v s) (act v t)
unfolding act drop_front emit
act-alike Verdict.too_short s t h = tt
act-alike Verdict.partial s t h = tt
act-alike Verdict.not_head s t h = record {
  buf = ap (drop 1) h.buf;
  read_ns = ap (drop 1) h.read_ns;
  enforce_crc = h.enforce_crc;
  byte_wire_ns = h.byte_wire_ns;
  published = h.published;
}
act-alike (Verdict.bad_crc8 x hdr) s t h = record {
  buf = ap (drop 1) h.buf;
  read_ns = ap (drop 1) h.read_ns;
  enforce_crc = h.enforce_crc;
  byte_wire_ns = h.byte_wire_ns;
  published =
      same_but_line s.node.events t.node.events (Log.crc8_mismatch hdr.seq hdr.crc8 x) h.published;
}
act-alike (Verdict.bad_crc16 x y hdr) s t h = record {
  buf = ap (drop 1) h.buf;
  read_ns = ap (drop 1) h.read_ns;
  enforce_crc = h.enforce_crc;
  byte_wire_ns = h.byte_wire_ns;
  published =
      same_but_line s.node.events t.node.events
        (Log.crc16_mismatch hdr.seq hdr.msg_type hdr.data_length x y) h.published;
}
act-alike (Verdict.complete hdr) s t h =
    let (crc_s, wire_s) = deliver-settings hdr s in
    let (crc_t, wire_t) = deliver-settings hdr t in
    record {
      buf = ap (drop (total_len hdr)) h.buf;
      read_ns = ap (drop (total_len hdr)) h.read_ns;
      enforce_crc = crc_s ∙ h.enforce_crc ∙ sym crc_t;
      byte_wire_ns = wire_s ∙ h.byte_wire_ns ∙ sym wire_t;
      published = deliver-published hdr s t h;
    }

rx_turn-alike : (s t : Rx) → AreAlike s t → BothAlike (rx_turn s) (rx_turn t)
unfolding rx_turn
rx_turn-alike s t h =
    subst (λ v. BothAlike (act (scan s.node.enforce_crc s.buf) s) (act v t))
      (ap₂ scan h.enforce_crc h.buf) (act-alike (scan s.node.enforce_crc s.buf) s t h)

stop_alike : (a b : Option Rx) → a ≡ none → BothAlike a b → b ≡ none
stop_alike none none e h = refl
stop_alike none (some t) e h = absurd h
stop_alike (some s) b e h = cc

turn_alike :
    (a b : Option Rx) (s : Rx) → a ≡ some s → BothAlike a b → (t : Rx) × (b ≡ some t) × AreAlike s t
turn_alike none b s e h = cc
turn_alike (some r) none s e h = absurd h
turn_alike (some r) (some t) s e h = (t, refl, subst (λ q. AreAlike q t) (some_inverse r s e) h)

-- What the read thread publishes depends on its buffer, the read times, the checksum switch and the
-- wire time only.
pub process-AreAlike :
    (s t : Rx) → AreAlike s t → AreAlike (process_rx_buffer s) (process_rx_buffer t)
process-AreAlike =
    process_induction
      (λ s. (t : Rx) → AreAlike s t → AreAlike (process_rx_buffer s) (process_rx_buffer t))
      (λ s stop t h.
        rw (process_stop s stop, process_stop t (stop_alike _ _ stop (rx_turn-alike s t h))) h)
      (λ s u p ih t h.
        let (v, q, k) = turn_alike _ _ u p (rx_turn-alike s t h) in
        rw (process_turn s u p, process_turn t v q) (ih v k))
