-- ===== src/Node/Receive/Accept.antt =====
-- A wire frame at the front of the buffer is complete, whatever follows it.
use ros2_dji_serial_bridge.Base.{
  ℕ, ◌+◌, ◌<◌, ◌≡◌, refl, ap, ◌∙◌, arith, Bool, List, ◌++◌, some, length, take, length-append,
  append_assoc, take-append_all, get_or-append_right,
}
use ros2_dji_serial_bridge.Base.Bytes.{byte_at}
use ros2_dji_serial_bridge.Crc.{calculate_crc16, crc16_init}
use ros2_dji_serial_bridge.Crc.Bounds.{calculate_crc16-lt}
use ros2_dji_serial_bridge.Protocol.{
  FrameHeader, header_bytes, read_header, le16, u16_at, frame_head,
}
use ros2_dji_serial_bridge.Protocol.RoundTrip.{read_header-header_bytes}
use ros2_dji_serial_bridge.Protocol.Wire.{
  wire_start, wire_header, wire_body, wire_frame, IsSendable, wire_crc8-eq, wire_frame-eq,
  length-wire_body, length-wire_frame, wire_header-FitsHeader, wire_body-eq-header,
}
use ros2_dji_serial_bridge.Node.Receive.{Verdict, scan, scan_body}

-- A little-endian word behind a prefix is read back at the prefix's length.
u16_at-append_le16 :
    (xs rest : List ℕ) (w n : ℕ) → w < 65536 → n ≡ length xs → u16_at ((xs ++ le16 w) ++ rest) n ≡ w
u16_at-append_le16 xs rest w n h e = ground (
  arith,
  append_assoc xs (le16 w) rest,
  get_or-append_right xs (le16 w ++ rest) 0 n 0 e,
  get_or-append_right xs (le16 w ++ rest) 1 n 0 e,
)

take-append_front : (xs ys zs : List ℕ) (n : ℕ) → n ≡ length xs → take n ((xs ++ ys) ++ zs) ≡ xs
take-append_front xs ys zs n e = rw (append_assoc xs ys zs) (take-append_all n xs (ys ++ zs) e)

module _ (id seq : ℕ) (payload rest : List ℕ) (fits : IsSendable id seq payload) where
  checksum : ℕ
  checksum = calculate_crc16 (some (wire_body id seq payload)) crc16_init

  frame_parts :
      wire_frame id seq payload ++ rest ≡ (wire_body id seq payload ++ le16 checksum) ++ rest
  unfolding checksum
  frame_parts = ap (λ f. f ++ rest) (wire_frame-eq id seq payload fits.seq_fits fits.bytes)

  body_length : 7 + length payload ≡ length (wire_body id seq payload)
  body_length = omega (arith, length-wire_body id seq payload)

  body_read :
      take (7 + length payload) (wire_frame id seq payload ++ rest) ≡ wire_body id seq payload
  body_read =
      ap (take (7 + length payload)) frame_parts
      ∙ take-append_front (wire_body id seq payload) (le16 checksum) rest (7 + length payload)
          body_length

  checksum_read : u16_at (wire_frame id seq payload ++ rest) (7 + length payload) ≡ checksum
  unfolding checksum
  checksum_read =
      ap (λ b. u16_at b (7 + length payload)) frame_parts
      ∙ u16_at-append_le16 (wire_body id seq payload) rest checksum (7 + length payload)
          (calculate_crc16-lt (wire_body id seq payload)) body_length

  header_read :
      read_header (wire_frame id seq payload ++ rest) ≡ wire_header id (length payload) seq
  header_read =
      ap read_header (
        frame_parts
        ∙ append_assoc (wire_body id seq payload) (le16 checksum) rest
        ∙ ap (λ b. b ++ (le16 checksum ++ rest)) (wire_body-eq-header id seq payload)
        ∙ append_assoc (header_bytes header) payload (le16 checksum ++ rest))
      ∙ read_header-header_bytes header (payload ++ (le16 checksum ++ rest)) (
          wire_header-FitsHeader id (length payload) seq fits.id_fits fits.length_fits
            fits.seq_fits)
    where
      header : FrameHeader
      header = wire_header id (length payload) seq

  frame_length : length (wire_frame id seq payload ++ rest) ≡ length payload + 9 + length rest
  frame_length =
      length-append (wire_frame id seq payload) rest
      ∙ ap (λ (k : ℕ). k + length rest) (length-wire_frame id seq payload)

  start_read :
      (byte_at (wire_frame id seq payload ++ rest) 0 ≡ frame_head)
      × (take 4 (wire_frame id seq payload ++ rest) ≡ wire_start (length payload) seq)
  unfolding wire_frame wire_body
  start_read = (refl, refl)

  scan_body-wire_frame :
      (enforce : Bool)
      → scan_body enforce (wire_header id (length payload) seq) (wire_frame id seq payload ++ rest)
        ≡ Verdict.complete (wire_header id (length payload) seq)
  unfolding scan_body checksum
  scan_body-wire_frame enforce = ground (arith, frame_length, checksum_read, body_read)

  -- The receiver takes a wire frame for what it is, whether or not it enforces the checksums.
  pub scan-wire_frame :
      (enforce : Bool)
      → scan enforce (wire_frame id seq payload ++ rest)
        ≡ Verdict.complete (wire_header id (length payload) seq)
  unfolding scan
  scan-wire_frame enforce = ground (
    arith,
    frame_length,
    header_read,
    start_read,
    wire_crc8-eq (length payload) seq fits.seq_fits,
    scan_body-wire_frame enforce,
  )
