-- ===== src/Node/Transmit/Laws.antt =====
-- What `send_frame` writes: the shape of a frame, its checksums and its bounds.
use ros2_dji_serial_bridge.Base.{
  append-nil, ◌↔◌, ℕ, ◌+◌, ◌/◌, ◌%◌, ◌^◌, ◌<◌, bit_and, ◌≡◌, refl, sym, ap, ap₂, ◌∙◌, arith, true,
  List, [], ◌∷◌, ◌++◌, Option, some, length,
}
use ros2_dji_serial_bridge.Base.Bits.{and_255}
use ros2_dji_serial_bridge.Base.Bytes.{AreBytes, u8, u16}
use ros2_dji_serial_bridge.Crc.{calculate_crc16, crc16_init}
use ros2_dji_serial_bridge.Protocol.{McbMsgType, msg_type_id, header_bytes, le16}
use ros2_dji_serial_bridge.Protocol.Wire.{
  wire_header, length-wire_frame, wire_crc8-eq, wire_body, wire_frame, wire_body-eq-header,
  wire_body-AreBytes,
}
use ros2_dji_serial_bridge.Crc.Reference.{reflected_crc, poly16}
use ros2_dji_serial_bridge.Crc.Equivalence.{calculate_crc16-eq-reflected}
use ros2_dji_serial_bridge.Node.State.{Node, Event, Log}
use ros2_dji_serial_bridge.Node.Transmit.{tx_header, trailer, tx_frame, send_frame}

-- The trailer is the checksum, low byte first.
pub trailer-eq-le16 : (crc16 : ℕ) → trailer crc16 ≡ le16 crc16
unfolding trailer
trailer-eq-le16 crc16 = ap₂ (λ a b. a ∷ b ∷ []) (low crc16) (low (crc16 / 256))
  where
    low : (n : ℕ) → u8 (bit_and n 0xff) ≡ n % 256
    low n = omega (arith, and_255 n)

-- The header that `send_frame` fills in is the wire format's.
tx_header-eq-wire :
    (m : McbMsgType) (len seq : ℕ)
    → seq < 256
    → tx_header m len seq ≡ wire_header (msg_type_id m) len seq
unfolding tx_header header_bytes
tx_header-eq-wire m len seq h = ground (arith, wire_crc8-eq len seq h)

-- `send_frame` builds exactly the frame of the wire format, for every message type, sequence number
-- and payload of bytes shorter than 65536.
pub tx_frame-eq-wire_frame :
    (m : McbMsgType) (seq : ℕ) (payload : List ℕ)
    → seq < 256
    → length payload < 2 ^ 16
    → AreBytes payload
    → tx_frame m seq payload ≡ wire_frame (msg_type_id m) seq payload
unfolding tx_frame wire_frame
tx_frame-eq-wire_frame m seq payload hs hl hp =
    ap₂ ◌++◌ body (trailer-eq-le16 crc16 ∙ ap le16 checksum)
  where
    crc16 : ℕ
    crc16 =
        calculate_crc16 (some (header_bytes (tx_header m (u16 (length payload)) seq) ++ payload))
          crc16_init

    short : u16 (length payload) ≡ length payload
    short = omega arith

    body :
        header_bytes (tx_header m (u16 (length payload)) seq) ++ payload
        ≡ wire_body (msg_type_id m) seq payload
    body =
        ap (λ l. header_bytes (tx_header m l seq) ++ payload) short
        ∙ ap (λ h. header_bytes h ++ payload) (tx_header-eq-wire m (length payload) seq hs)
        ∙ sym (wire_body-eq-header (msg_type_id m) seq payload)

    checksum :
        calculate_crc16
          (some (header_bytes (tx_header m (u16 (length payload)) seq) ++ payload))
          crc16_init
        ≡ reflected_crc poly16 (wire_body (msg_type_id m) seq payload) 0xffff
    checksum =
        ap (λ b. calculate_crc16 (some b) crc16_init) body
        ∙ calculate_crc16-eq-reflected (wire_body (msg_type_id m) seq payload) crc16_init
            (wire_body-AreBytes (msg_type_id m) seq payload hs hp)

-- The frames handed to `write`, in order.
abbrev pub frames_written : List Event → List (List ℕ)
frames_written [] = []
frames_written (Event.wrote frame result ∷ es) = frame ∷ frames_written es
frames_written (Event.logged l ∷ es) = frames_written es
frames_written (Event.published_pose m ∷ es) = frames_written es
frames_written (Event.published_ref_sys m ∷ es) = frames_written es
frames_written (Event.published_ping m ∷ es) = frames_written es

pub frames_written-append :
    (xs ys : List Event) → frames_written (xs ++ ys) ≡ frames_written xs ++ frames_written ys
frames_written-append [] ys = refl
frames_written-append (Event.wrote frame result ∷ xs) ys =
    ap (◌∷◌ frame) (frames_written-append xs ys)
frames_written-append (Event.logged l ∷ xs) ys = frames_written-append xs ys
frames_written-append (Event.published_pose m ∷ xs) ys = frames_written-append xs ys
frames_written-append (Event.published_ref_sys m ∷ xs) ys = frames_written-append xs ys
frames_written-append (Event.published_ping m ∷ xs) ys = frames_written-append xs ys

-- For a sequence number in range and a payload of bytes shorter than 65536, `send_frame` hands
-- `write` one frame, the wire frame with the node's sequence number; steps that number, also if the
-- write fails; and reports success exactly when all `length payload + 9` bytes were taken.
pub send_frame-writes :
    (write : List ℕ → Option ℕ) (m : McbMsgType) (payload : List ℕ) (n : Node)
    → n.tx_seq < 256
    → length payload < 2 ^ 16
    → AreBytes payload
    → (frames_written (send_frame write m payload n).0.events
        ≡ frames_written n.events ++ (wire_frame (msg_type_id m) n.tx_seq payload ∷ []))
      × ((send_frame write m payload n).0.tx_seq ≡ (n.tx_seq + 1) % 256)
      × (((send_frame write m payload n).1 ≡ true)
          ↔ (write (wire_frame (msg_type_id m) n.tx_seq payload) ≡ some (length payload + 9)))
unfolding send_frame
send_frame-writes write m payload n hs hl hp =
    let frame = tx_frame m n.tx_seq payload in
    let call = Event.wrote frame (write frame) ∷ [] in
    let line = Event.logged (Log.short_write m (write frame) (length frame)) ∷ [] in
    ground (
      arith,
      tx_frame-eq-wire_frame m n.tx_seq payload hs hl hp,
      length-wire_frame (msg_type_id m) n.tx_seq payload,
      frames_written-append n.events call,
      frames_written-append (n.events ++ call) line,
      append-nil (frames_written n.events ++ (frame ∷ [])),
    )
