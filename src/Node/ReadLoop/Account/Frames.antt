-- ===== src/Node/ReadLoop/Account/Frames.antt =====
-- Every byte that the receive loop takes belongs to a frame that it delivered, or was dropped alone.
use ros2_dji_serial_bridge.Base.{
  ℕ, ◌+◌, ◌-◌, ◌*◌, ◌≤◌, ◌≡◌, refl, sym, ap, ap₂, subst, ◌∙◌, arith, true, List, [], ◌∷◌, ◌++◌,
  append-nil, append_assoc, some, some_inverse, length, take, drop, get_or, length-take,
  length-drop,
}
use ros2_dji_serial_bridge.Base.Int.{ℤ, pos, ◌-ℤ◌}
use ros2_dji_serial_bridge.Base.Bytes.{AreBytes, u64}
use ros2_dji_serial_bridge.Protocol.{FrameHeader}
use ros2_dji_serial_bridge.Protocol.Wire.{wire_frame}
use ros2_dji_serial_bridge.Node.State.{Node, Event, Log, emit}
use ros2_dji_serial_bridge.Node.Handlers.{dispatch_incoming}
use ros2_dji_serial_bridge.Node.Handlers.Laws.{
  publications, publications-append, message_of, as_list, dispatch-publishes,
}
use ros2_dji_serial_bridge.Node.Receive.{
  Verdict, scan, total_len, Rx, drop_front, deliver, act, rx_turn, process_rx_buffer, frame_stamp,
}
use ros2_dji_serial_bridge.Node.Receive.Scan.{Supported, scan-Supported}
use ros2_dji_serial_bridge.Node.Receive.Loop.{
  rx_turn_shrinks, process_induction, process_stop, process_turn,
}
use ros2_dji_serial_bridge.Node.Receive.Bounded.{rx_turn-AreBytes}
use ros2_dji_serial_bridge.Node.Receive.Sound.{complete-wire_frame}
use ros2_dji_serial_bridge.Node.Receive.Core.{deliver-settings}
use ros2_dji_serial_bridge.Node.ReadLoop.Delivery.{due_messages}
use ros2_dji_serial_bridge.Node.ReadLoop.Account.{Account, skip-Account}

module _ (hdr : FrameHeader) (s : Rx) where
  payload : List ℕ
  payload = take hdr.data_length (drop 7 s.buf)

  length-payload : total_len hdr ≤ length s.buf → length payload ≡ hdr.data_length
  unfolding payload
  length-payload h = omega (arith, length-take hdr.data_length (drop 7 s.buf), length-drop 7 s.buf)

  start_of : ℕ → ℕ → ℤ
  start_of last size = get_or s.read_ns last (pos 0) -ℤ pos (size * s.node.byte_wire_ns)

  deliver-message :
      length payload ≡ hdr.data_length
      → publications (deliver hdr s).events
        ≡ publications s.node.events
          ++ as_list
              (message_of hdr.msg_type payload (start_of (length payload + 8) (length payload + 9)))
  unfolding deliver frame_stamp payload start_of
  deliver-message same =
      let counted = record s.node { frames_rx = u64 (s.node.frames_rx + 1) } in
      let last : 7 + length payload + 2 - 1 ≡ length payload + 8 = omega arith in
      let size : 7 + length payload + 2 ≡ length payload + 9 = omega arith in
      ap
        (λ len.
          publications
            (dispatch_incoming hdr.msg_type payload len (start_of (7 + len + 2 - 1) (7 + len + 2))
              counted).events)
        (sym same)
      ∙ dispatch-publishes hdr.msg_type payload
          (start_of (7 + length payload + 2 - 1) (7 + length payload + 2)) counted
      ∙ ap₂
          (λ i n.
            publications s.node.events ++ as_list (message_of hdr.msg_type payload (start_of i n)))
          last size

  -- A delivered frame comes first.
  take-Account :
      (t r : Rx)
      → s.node.enforce_crc ≡ true
      → AreBytes s.buf
      → scan s.node.enforce_crc s.buf ≡ Verdict.complete hdr
      → drop_front (total_len hdr) (record s { node = deliver hdr s }) ≡ t
      → Account t r
      → Account s r
  unfolding drop_front payload start_of
  take-Account t r on h found e a =
      let taken = complete-wire_frame s.buf hdr h (ap (λ b. scan b s.buf) (sym on) ∙ found) in
      let fits =
        subst (λ v. Supported s.node.enforce_crc v s.buf) found
          (scan-Supported s.node.enforce_crc s.buf) in
      let same = length-payload fits.0 in
      let size : total_len hdr ≡ length payload + 9 = omega arith in
      let times : t.read_ns ≡ drop (length payload + 9) s.read_ns =
        ap (λ (q : Rx). q.read_ns) (sym e) ∙ ap (λ n. drop n s.read_ns) size in
      let wire : t.node.byte_wire_ns ≡ s.node.byte_wire_ns =
        ap (λ (q : Rx). q.node.byte_wire_ns) (sym e) ∙ (deliver-settings hdr s).1 in
      record {
        items =
            record { garbage = []; id = hdr.msg_type; seq = hdr.seq; payload = payload } ∷ a.items;
        skipped = a.skipped;
        frames = (taken.0, a.frames);
        bytes =
            taken.1
            ∙ ap (λ rest. wire_frame hdr.msg_type hdr.seq payload ++ rest)
                (ap (λ (q : Rx). q.buf) e ∙ a.bytes);
        published =
            a.published
            ∙ ap₂ ◌++◌ (ap (λ (q : Rx). publications q.node.events) (sym e) ∙ deliver-message same)
                (ap₂ (λ w ts. due_messages w a.items ts) wire times)
            ∙ append_assoc (publications s.node.events) _ _;
      }

-- What a turn leaves as it was.
act-settings : (v : Verdict) (s t : Rx) → act v s ≡ some t → t.node.enforce_crc ≡ s.node.enforce_crc
unfolding act drop_front emit
act-settings Verdict.too_short s t p = cc
act-settings Verdict.partial s t p = cc
act-settings Verdict.not_head s t p = ground arith
act-settings (Verdict.bad_crc8 x hdr) s t p = ground arith
act-settings (Verdict.bad_crc16 x y hdr) s t p = ground arith
act-settings (Verdict.complete hdr) s t p =
    ap (λ (q : Rx). q.node.enforce_crc) (sym (some_inverse _ t p)) ∙ (deliver-settings hdr s).0

-- A turn that drops a byte with a line.
said-Account :
    (line : Log) (counted : Node) (s t r : Rx)
    → counted.events ≡ s.node.events
    → counted.byte_wire_ns ≡ s.node.byte_wire_ns
    → 1 ≤ length s.buf
    → drop_front 1 (record s { node = emit (Event.logged line ∷ []) counted }) ≡ t
    → Account t r
    → Account s r
unfolding drop_front emit
said-Account line counted s t r same wire long e a =
    skip-Account s t r long (ap (λ (q : Rx). q.buf) (sym e)) (ap (λ (q : Rx). q.read_ns) (sym e))
      (ap (λ (q : Rx). q.node.byte_wire_ns) (sym e) ∙ wire)
      (ap (λ (q : Rx). publications q.node.events) (sym e)
        ∙ publications-append counted.events (Event.logged line ∷ [])
        ∙ append-nil (publications counted.events)
        ∙ ap (λ (es : List Event). publications es) same)
      a

act-Account :
    (v : Verdict) (s t r : Rx)
    → s.node.enforce_crc ≡ true
    → AreBytes s.buf
    → scan s.node.enforce_crc s.buf ≡ v
    → 1 ≤ length s.buf
    → act v s ≡ some t
    → Account t r
    → Account s r
unfolding act
act-Account Verdict.too_short s t r on h found long p a = cc
act-Account Verdict.partial s t r on h found long p a = cc
act-Account Verdict.not_head s t r on h found long p a =
    let e = some_inverse (drop_front 1 s) t p in
    unfold drop_front in
    skip-Account s t r long (ap (λ (q : Rx). q.buf) (sym e)) (ap (λ (q : Rx). q.read_ns) (sym e))
      (ap (λ (q : Rx). q.node.byte_wire_ns) (sym e))
      (ap (λ (q : Rx). publications q.node.events) (sym e)) a
act-Account (Verdict.bad_crc8 x hdr) s t r on h found long p a =
    said-Account (Log.crc8_mismatch hdr.seq hdr.crc8 x)
      (record s.node { crc8_errors = u64 (s.node.crc8_errors + 1) }) s t r refl refl long
      (some_inverse _ t p) a
act-Account (Verdict.bad_crc16 x y hdr) s t r on h found long p a =
    said-Account (Log.crc16_mismatch hdr.seq hdr.msg_type hdr.data_length x y)
      (record s.node { crc16_errors = u64 (s.node.crc16_errors + 1) }) s t r refl refl long
      (some_inverse _ t p) a
act-Account (Verdict.complete hdr) s t r on h found long p a =
    take-Account hdr s t r on h found (some_inverse _ t p) a

-- With the checksums enforced, whatever bytes are in the buffer: they are bytes that were skipped one
-- by one, frames of the wire format, and at the end the bytes that the
-- loop keeps; and the messages that were published are those of just these frames, in order, each
-- with the read time of its frame's last byte less the frame's wire time. No byte is lost or used twice.
pub process-Account :
    (s : Rx) → s.node.enforce_crc ≡ true → AreBytes s.buf → Account s (process_rx_buffer s)
process-Account =
    process_induction
      (λ s. s.node.enforce_crc ≡ true → AreBytes s.buf → Account s (process_rx_buffer s))
      (λ s stop on h. rw (process_stop s stop) (record {
        items = [];
        skipped = [];
        frames = tt;
        bytes = refl;
        published = sym (append-nil (publications s.node.events));
      }))
      (λ s t p ih on h.
        let turn : act (scan s.node.enforce_crc s.buf) s ≡ some t = unfold rx_turn in p in
        let less = rx_turn_shrinks s t p in
        rw (process_turn s t p) (
          act-Account (scan s.node.enforce_crc s.buf) s t (process_rx_buffer t) on h refl
            (omega arith) turn (ih (act-settings _ s t turn ∙ on) (rx_turn-AreBytes s t h p))))
