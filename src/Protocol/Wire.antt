-- ===== src/Protocol/Wire.antt =====
-- The frame of UART_PROTOCOL.md as a specification: a function of the message id, the sequence
-- number and the payload, with both checksums computed a bit at a time.
use ros2_dji_serial_bridge.Base.{
  ℕ, ◌+◌, ◌/◌, ◌%◌, ◌^◌, ◌<◌, ◌≡◌, refl, sym, ap, arith, List, [], ◌∷◌, ◌++◌, some, length,
  length-append, All-append,
}
use ros2_dji_serial_bridge.Base.Bytes.{IsByte, AreBytes}
use ros2_dji_serial_bridge.Crc.{calculate_crc8, calculate_crc16, crc8_init, crc16_init}
use ros2_dji_serial_bridge.Crc.Reference.{reflected_crc, poly8, poly16}
use ros2_dji_serial_bridge.Crc.Equivalence.{
  calculate_crc8-eq-reflected, calculate_crc16-eq-reflected,
}
use ros2_dji_serial_bridge.Crc.Bounds.{calculate_crc8-lt}
use ros2_dji_serial_bridge.Protocol.RoundTrip.{FitsHeader}
use ros2_dji_serial_bridge.Protocol.{FrameHeader, header_bytes, le16, frame_head}

-- Bytes 0 to 3.
abbrev pub wire_start : (payload_len seq : ℕ) → List ℕ
wire_start payload_len seq = 0xa5 ∷ payload_len % 256 ∷ payload_len / 256 % 256 ∷ seq ∷ []

unfoldable pub wire_crc8 : (payload_len seq : ℕ) → ℕ
wire_crc8 payload_len seq = reflected_crc poly8 (wire_start payload_len seq) 0xff

-- Everything before the CRC-16.
unfoldable pub wire_body : (id seq : ℕ) → List ℕ → List ℕ
wire_body id seq payload =
    (wire_start (length payload) seq ++ (wire_crc8 (length payload) seq ∷ le16 id)) ++ payload

unfoldable pub wire_frame : (id seq : ℕ) → List ℕ → List ℕ
wire_frame id seq payload =
    let body = wire_body id seq payload in body ++ le16 (reflected_crc poly16 body 0xffff)

-- The header that stands in a wire frame.
abbrev pub wire_header : (id payload_len seq : ℕ) → FrameHeader
wire_header id payload_len seq = record {
  head = frame_head;
  data_length = payload_len;
  seq = seq;
  crc8 = wire_crc8 payload_len seq;
  msg_type = id;
}

-- The fields that `wire_frame` takes fit the header.
pub record IsSendable (id seq : ℕ) (payload : List ℕ) : Type 0 where
  pub id_fits : id < 2 ^ 16
  pub seq_fits : seq < 256
  pub length_fits : length payload < 2 ^ 16
  pub bytes : AreBytes payload

pub wire_body-eq-header :
    (id seq : ℕ) (payload : List ℕ)
    → wire_body id seq payload ≡ header_bytes (wire_header id (length payload) seq) ++ payload
unfolding wire_body header_bytes
wire_body-eq-header id seq payload = refl

pub length-wire_body :
    (id seq : ℕ) (payload : List ℕ) → length (wire_body id seq payload) ≡ length payload + 7
unfolding wire_body
length-wire_body id seq payload = omega arith

pub length-wire_frame :
    (id seq : ℕ) (payload : List ℕ) → length (wire_frame id seq payload) ≡ length payload + 9
unfolding wire_frame
length-wire_frame id seq payload =
    let body = wire_body id seq payload in
    omega (
      arith,
      length-append body (le16 (reflected_crc poly16 body 0xffff)),
      length-wire_body id seq payload,
    )

wire_start-AreBytes : (len seq : ℕ) → seq < 256 → AreBytes (wire_start len seq)
wire_start-AreBytes len seq h = omega arith

-- The header's checksum, as the code computes it.
pub wire_crc8-eq :
    (len seq : ℕ)
    → seq < 256
    → wire_crc8 len seq ≡ calculate_crc8 (some (wire_start len seq)) crc8_init
unfolding wire_crc8
wire_crc8-eq len seq h = sym (
    calculate_crc8-eq-reflected (wire_start len seq) 255 (wire_start-AreBytes len seq h)
      (omega arith))

pub wire_crc8-lt : (len seq : ℕ) → seq < 256 → wire_crc8 len seq < 256
wire_crc8-lt len seq h = rw (wire_crc8-eq len seq h) (calculate_crc8-lt (wire_start len seq))

pub wire_header-FitsHeader :
    (id len seq : ℕ) → id < 2 ^ 16 → len < 2 ^ 16 → seq < 256 → FitsHeader (wire_header id len seq)
wire_header-FitsHeader id len seq hi hl hs = omega (arith, wire_crc8-lt len seq hs)

pub wire_body-AreBytes :
    (id seq : ℕ) (payload : List ℕ)
    → seq < 256
    → AreBytes payload
    → AreBytes (wire_body id seq payload)
unfolding wire_body
wire_body-AreBytes id seq payload hs hp =
    let header = wire_start (length payload) seq ++ (wire_crc8 (length payload) seq ∷ le16 id) in
    All-append IsByte header payload (omega (arith, wire_crc8-lt (length payload) seq hs)) hp

-- The frame's checksum, as the code computes it.
pub wire_frame-eq :
    (id seq : ℕ) (payload : List ℕ)
    → seq < 256
    → AreBytes payload
    → wire_frame id seq payload
      ≡ wire_body id seq payload
        ++ le16 (calculate_crc16 (some (wire_body id seq payload)) crc16_init)
unfolding wire_frame
wire_frame-eq id seq payload hs hp =
    let body = wire_body id seq payload in
    ap (λ c. body ++ le16 c)
      (sym (calculate_crc16-eq-reflected body crc16_init (wire_body-AreBytes id seq payload hs hp)))

pub wire_frame-AreBytes :
    (id seq : ℕ) (payload : List ℕ)
    → seq < 256
    → AreBytes payload
    → AreBytes (wire_frame id seq payload)
unfolding wire_frame
wire_frame-AreBytes id seq payload hs hp =
    let body = wire_body id seq payload in
    All-append IsByte body (le16 (reflected_crc poly16 body 0xffff))
      (wire_body-AreBytes id seq payload hs hp) (omega arith)
