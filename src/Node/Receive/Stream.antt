-- ===== src/Node/Receive/Stream.antt =====
-- Wire frames among bytes that are no frame head: every frame is dispatched, once and in order.
use ros2_dji_serial_bridge.Base.{
  drop-nil, suc, ℕ, ◌+◌, ◌-◌, ◌≤◌, ◌≡◌, ◌≢◌, refl, sym, ap, ◌∙◌, arith, List, [], ◌∷◌, ◌++◌, some,
  length, take, drop, get_or, All, append_assoc, take-append_all, drop-append_all, length-append,
}
use ros2_dji_serial_bridge.Base.Int.{ℤ, pos}
use ros2_dji_serial_bridge.Base.Bytes.{u64}
use ros2_dji_serial_bridge.Protocol.{frame_head, le16}
use ros2_dji_serial_bridge.Crc.Reference.{reflected_crc, poly16}
use ros2_dji_serial_bridge.Protocol.Wire.{
  wire_header, wire_body, wire_frame, IsSendable, length-wire_frame,
}
use ros2_dji_serial_bridge.Node.State.{Node}
use ros2_dji_serial_bridge.Node.Handlers.{dispatch_incoming}
use ros2_dji_serial_bridge.Node.Receive.{
  scan, Rx, drop_front, deliver, act, rx_turn, process_rx_buffer, frame_stamp,
}
use ros2_dji_serial_bridge.Node.Receive.Accept.{scan-wire_frame}
use ros2_dji_serial_bridge.Node.Receive.Loop.{process_turn}

abbrev pub rx : List ℕ → List ℤ → Node → Rx
rx buf times n = record { buf = buf; read_ns = times; node = n }

-- What one frame does to the node: it is counted and dispatched, with its start time.
unfoldable pub take_frame : (id : ℕ) → (payload : List ℕ) → List ℤ → Node → Node
take_frame id payload times n =
    dispatch_incoming id payload (length payload)
      (frame_stamp (get_or times (length payload + 8) (pos 0)) (length payload + 9) n)
      (record n { frames_rx = u64 (n.frames_rx + 1) })

module _ (id seq : ℕ) (payload rest : List ℕ) (times : List ℤ) (n : Node)
    (fits : IsSendable id seq payload) where
  payload_read : take (length payload) (drop 7 (wire_frame id seq payload ++ rest)) ≡ payload
  unfolding wire_frame wire_body
  payload_read =
      let crc16 = reflected_crc poly16 (wire_body id seq payload) 0xffff in
      ap (take (length payload)) (append_assoc payload (le16 crc16) rest)
      ∙ take-append_all (length payload) payload (le16 crc16 ++ rest) refl

  deliver-wire_frame :
      deliver (wire_header id (length payload) seq) (rx (wire_frame id seq payload ++ rest) times n)
      ≡ take_frame id payload times n
  unfolding deliver take_frame
  deliver-wire_frame =
      let whole : 7 + length payload + 2 ≡ length payload + 9 = omega arith in
      let last : 7 + length payload + 2 - 1 ≡ length payload + 8 = omega arith in
      rw (payload_read, last, whole)

  turn-wire_frame :
      rx_turn (rx (wire_frame id seq payload ++ rest) times n)
      ≡ some (rx rest (drop (length payload + 9) times) (take_frame id payload times n))
  unfolding rx_turn act drop_front
  turn-wire_frame =
      let whole : 7 + length payload + 2 ≡ length payload + 9 = omega arith in
      ground (
        arith,
        scan-wire_frame id seq payload rest fits n.enforce_crc,
        deliver-wire_frame,
        whole,
        drop-append_all (length payload + 9) (wire_frame id seq payload) rest
            (sym (length-wire_frame id seq payload)),
      )

  process-wire_frame :
      process_rx_buffer (rx (wire_frame id seq payload ++ rest) times n)
      ≡ process_rx_buffer
          (rx rest (drop (length payload + 9) times) (take_frame id payload times n))
  process-wire_frame = process_turn _ _ turn-wire_frame

-- A byte that is no frame head is skipped while nine bytes are there.
turn-not_head :
    (b : ℕ) (buf : List ℕ) (times : List ℤ) (n : Node)
    → b ≢ frame_head
    → 8 ≤ length buf
    → rx_turn (rx (b ∷ buf) times n) ≡ some (rx buf (drop 1 times) n)
unfolding rx_turn scan act drop_front
turn-not_head b buf times n h k = ground arith

process-garbage :
    (garbage buf : List ℕ) (times : List ℤ) (n : Node)
    → All (λ b. b ≢ frame_head) garbage
    → 8 ≤ length buf
    → process_rx_buffer (rx (garbage ++ buf) times n)
      ≡ process_rx_buffer (rx buf (drop (length garbage) times) n)
process-garbage [] buf times n h k = refl
process-garbage (b ∷ garbage) buf times n h k =
    process_turn _ _
      (turn-not_head b (garbage ++ buf) times n h.0 (omega (arith, length-append garbage buf)))
    ∙ process-garbage garbage buf (drop 1 times) n h.1 k
    ∙ ap (λ t. process_rx_buffer (rx buf t n)) (drop_more times)
  where
    drop_more : (t : List ℤ) → drop (length garbage) (drop 1 t) ≡ drop (suc (length garbage)) t
    drop_more [] = drop-nil (length garbage)
    drop_more (x ∷ t) = refl

-- Bytes that are no frame head, then a frame.
pub record Item : Type 0 where
  pub garbage : List ℕ
  pub id : ℕ
  pub seq : ℕ
  pub payload : List ℕ

abbrev pub IsItem : Item → Type 0
IsItem item = All (λ b. b ≢ frame_head) item.garbage × IsSendable item.id item.seq item.payload

abbrev pub item_bytes : Item → List ℕ
item_bytes item = item.garbage ++ wire_frame item.id item.seq item.payload

abbrev pub stream : List Item → List ℕ → List ℕ
stream [] rest = rest
stream (item ∷ items) rest =
    item.garbage ++ (wire_frame item.id item.seq item.payload ++ stream items rest)

-- The frames dispatched one after the other, each with its own read times.
abbrev pub dispatch_all : List Item → List ℤ → Node → List ℤ × Node
dispatch_all [] times n = (times, n)
dispatch_all (item ∷ items) times n =
    let at_frame = drop (length item.garbage) times in
    dispatch_all items (drop (length item.payload + 9) at_frame)
      (take_frame item.id item.payload at_frame n)

-- Of frames among bytes that are no frame head, the receive loop dispatches every one, once and in
-- order, with the time of its own bytes, and goes on with the bytes behind the last.
pub process-stream :
    (items : List Item) (rest : List ℕ) (times : List ℤ) (n : Node)
    → All IsItem items
    → process_rx_buffer (rx (stream items rest) times n)
      ≡ process_rx_buffer (rx rest (dispatch_all items times n).0 (dispatch_all items times n).1)
process-stream [] rest times n h = refl
process-stream (item ∷ items) rest times n h =
    process-garbage item.garbage _ times n h.0.0 long
    ∙ process-wire_frame item.id item.seq item.payload (stream items rest) _ n h.0.1
    ∙ process-stream items rest _ _ h.1
  where
    long : 8 ≤ length (wire_frame item.id item.seq item.payload ++ stream items rest)
    long = omega (
      arith,
      length-append (wire_frame item.id item.seq item.payload) (stream items rest),
      length-wire_frame item.id item.seq item.payload,
    )
