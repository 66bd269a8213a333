-- ===== src/Node/Receive/Sound.antt =====
-- With the checksums enforced, only wire frames are taken.
use ros2_dji_serial_bridge.Base.{
  ℕ, ◌+◌, ◌/◌, ◌%◌, ◌^◌, ◌≤◌, ◌<◌, ◌≡◌, refl, sym, ap, subst, ap₂, ◌∙◌, arith, true, List, [], ◌∷◌,
  ◌++◌, some, length, take, drop, append_assoc, length-take, length-drop, take-append-drop,
  take-append_all, get_or-drop, drop-drop, All-take, All-drop, All-get_or,
}
use ros2_dji_serial_bridge.Base.Bytes.{byte_at, AreBytes, IsByte}
use ros2_dji_serial_bridge.Crc.{calculate_crc8, calculate_crc16, crc8_init, crc16_init}
use ros2_dji_serial_bridge.Protocol.{
  FrameHeader, header_bytes, read_header, le16, u16_at, frame_head, crc8_coverage,
}
use ros2_dji_serial_bridge.Protocol.Wire.{
  wire_start, wire_header, wire_body, wire_frame, IsSendable, wire_crc8-eq, wire_frame-eq,
  wire_body-eq-header, length-wire_body,
}
use ros2_dji_serial_bridge.Node.Receive.{Verdict, scan, total_len}
use ros2_dji_serial_bridge.Node.Receive.Scan.{Supported, scan-Supported}

split_header :
    (buf : List ℕ)
    → AreBytes buf
    → 7 ≤ length buf
    → buf ≡ header_bytes (read_header buf) ++ drop 7 buf
unfolding header_bytes read_header
split_header (a ∷ b ∷ c ∷ d ∷ e ∷ f ∷ g ∷ rest) h k = ground arith
split_header [] h k = absurd (omega arith)
split_header (a ∷ []) h k = absurd (omega arith)
split_header (a ∷ b ∷ []) h k = absurd (omega arith)
split_header (a ∷ b ∷ c ∷ []) h k = absurd (omega arith)
split_header (a ∷ b ∷ c ∷ d ∷ []) h k = absurd (omega arith)
split_header (a ∷ b ∷ c ∷ d ∷ e ∷ []) h k = absurd (omega arith)
split_header (a ∷ b ∷ c ∷ d ∷ e ∷ f ∷ []) h k = absurd (omega arith)

split_word : (xs : List ℕ) → AreBytes xs → 2 ≤ length xs → xs ≡ le16 (u16_at xs 0) ++ drop 2 xs
split_word [] h k = absurd (omega arith)
split_word (a ∷ []) h k = absurd (omega arith)
split_word (a ∷ b ∷ rest) h k = ground arith

-- A word at an offset, and what stands before and behind it.
split_word_at :
    (xs : List ℕ) (n : ℕ)
    → AreBytes xs
    → n + 2 ≤ length xs
    → drop n xs ≡ le16 (u16_at xs n) ++ drop (n + 2) xs
split_word_at xs n h k =
    split_word (drop n xs) (All-drop IsByte n xs h) (omega (arith, length-drop n xs))
    ∙ ap₂ (λ w t. le16 w ++ t) word (drop-drop 2 n xs)
  where
    word : u16_at (drop n xs) 0 ≡ u16_at xs n
    word = ground (arith, get_or-drop n xs 0 0, get_or-drop n xs 1 0)

-- The parts of a buffer that holds a whole frame.
split_frame :
    (buf : List ℕ) (n : ℕ)
    → AreBytes buf
    → 7 + n + 2 ≤ length buf
    → buf
      ≡ (header_bytes (read_header buf) ++ take n (drop 7 buf))
        ++ (le16 (u16_at buf (7 + n)) ++ drop (7 + n + 2) buf)
split_frame buf n h k =
    split_header buf h (omega arith)
    ∙ ap (λ t. header ++ t) (sym (take-append-drop n (drop 7 buf)))
    ∙ ap (λ t. header ++ (take n (drop 7 buf) ++ t))
        (drop-drop n 7 buf ∙ split_word_at buf (7 + n) h k)
    ∙ sym (append_assoc header (take n (drop 7 buf)) behind)
  where
    header : List ℕ
    header = header_bytes (read_header buf)

    behind : List ℕ
    behind = le16 (u16_at buf (7 + n)) ++ drop (7 + n + 2) buf

-- The two checksums that the verdict `complete` stands for.
record IsChecked (buf : List ℕ) (hdr : FrameHeader) : Type 0 where
  fits : total_len hdr ≤ length buf
  head : byte_at buf 0 ≡ frame_head
  read : hdr ≡ read_header buf
  crc8 : calculate_crc8 (some (take crc8_coverage buf)) crc8_init ≡ hdr.crc8
  crc16 :
      u16_at buf (7 + hdr.data_length)
      ≡ calculate_crc16 (some (take (7 + hdr.data_length) buf)) crc16_init

complete-IsChecked :
    (buf : List ℕ) (hdr : FrameHeader) → scan true buf ≡ Verdict.complete hdr → IsChecked buf hdr
complete-IsChecked buf hdr taken =
    let support = subst (λ v. Supported true v buf) taken (scan-Supported true buf) in
    record {
      fits = support.0;
      head = support.1;
      read = support.2;
      crc8 = (support.3 refl).0;
      crc16 = (support.3 refl).1;
    }

pub read_header_widths :
    (buf : List ℕ)
    → AreBytes buf
    → ((read_header buf).msg_type < 2 ^ 16)
      × ((read_header buf).seq < 256)
      × ((read_header buf).data_length < 2 ^ 16)
unfolding read_header
read_header_widths buf h =
    let byte : (i : ℕ) → byte_at buf i < 256 = λ i. All-get_or IsByte buf i 0 h (omega arith) in
    (omega (arith, byte 5, byte 6), byte 3, omega (arith, byte 1, byte 2))

module _ (buf : List ℕ) (hdr : FrameHeader) (bytes : AreBytes buf) (c : IsChecked buf hdr) where
  payload : List ℕ
  payload = take hdr.data_length (drop 7 buf)

  length-payload : length payload ≡ hdr.data_length
  unfolding payload
  length-payload =
      let fits = c.fits in
      omega (arith, length-take hdr.data_length (drop 7 buf), length-drop 7 buf)

  payload-IsSendable : IsSendable hdr.msg_type hdr.seq payload
  unfolding payload
  payload-IsSendable =
      let (id, seq, len) = read_header_widths buf bytes in
      record {
        id_fits = rw (ap (λ (h : FrameHeader). h.msg_type) c.read) id;
        seq_fits = rw (ap (λ (h : FrameHeader). h.seq) c.read) seq;
        length_fits =
            omega (arith, len, ap (λ (h : FrameHeader). h.data_length) c.read, length-payload);
        bytes = All-take IsByte hdr.data_length (drop 7 buf) (All-drop IsByte 7 buf bytes);
      }

  head_is : hdr.head ≡ frame_head
  head_is = ap (λ (h : FrameHeader). h.head) c.read ∙ (unfold read_header in c.head)

  -- The first four bytes, and the header that the checksum makes of them.
  start : take 4 buf ≡ wire_start hdr.data_length hdr.seq
  unfolding header_bytes
  start =
      ap (take 4) (split_header buf bytes (let fits = c.fits in omega arith))
      ∙ ap (λ h. take 4 (header_bytes h ++ drop 7 buf)) (sym c.read)
      ∙ ap (λ b. b ∷ hdr.data_length % 256 ∷ hdr.data_length / 256 % 256 ∷ hdr.seq ∷ []) head_is

  header : hdr ≡ wire_header hdr.msg_type hdr.data_length hdr.seq
  header = ground (
    arith,
    head_is,
    c.crc8,
    start,
    wire_crc8-eq hdr.data_length hdr.seq payload-IsSendable.seq_fits,
  )

  body : header_bytes (read_header buf) ++ payload ≡ wire_body hdr.msg_type hdr.seq payload
  body =
      ap (λ h. header_bytes h ++ payload) (sym c.read ∙ header)
      ∙ ap (λ l. header_bytes (wire_header hdr.msg_type l hdr.seq) ++ payload) (sym length-payload)
      ∙ sym (wire_body-eq-header hdr.msg_type hdr.seq payload)

  parts :
      buf
      ≡ wire_body hdr.msg_type hdr.seq payload
        ++ (le16 (u16_at buf (7 + hdr.data_length)) ++ drop (total_len hdr) buf)
  unfolding payload
  parts =
      split_frame buf hdr.data_length bytes c.fits
      ∙ ap (λ b. b ++ (le16 (u16_at buf (7 + hdr.data_length)) ++ drop (total_len hdr) buf)) body

  checked_part : take (7 + hdr.data_length) buf ≡ wire_body hdr.msg_type hdr.seq payload
  checked_part =
      ap (take (7 + hdr.data_length)) parts
      ∙ take-append_all (7 + hdr.data_length) (wire_body hdr.msg_type hdr.seq payload) _
          (omega (arith, length-wire_body hdr.msg_type hdr.seq payload, length-payload))

  frame_found : buf ≡ wire_frame hdr.msg_type hdr.seq payload ++ drop (total_len hdr) buf
  frame_found =
      parts
      ∙ ap (λ w. wire_body hdr.msg_type hdr.seq payload ++ (le16 w ++ drop (total_len hdr) buf))
          (c.crc16 ∙ ap (λ b. calculate_crc16 (some b) crc16_init) checked_part)
      ∙ sym (append_assoc (wire_body hdr.msg_type hdr.seq payload) _ (drop (total_len hdr) buf))
      ∙ ap (λ f. f ++ drop (total_len hdr) buf)
          (sym (
            wire_frame-eq hdr.msg_type hdr.seq payload payload-IsSendable.seq_fits
              payload-IsSendable.bytes))

-- With the checksums enforced, a buffer of bytes is taken for a frame only if it starts with the
-- wire frame of the message type, sequence number and payload that are delivered.
pub complete-wire_frame :
    (buf : List ℕ) (hdr : FrameHeader)
    → AreBytes buf
    → scan true buf ≡ Verdict.complete hdr
    → IsSendable hdr.msg_type hdr.seq (take hdr.data_length (drop 7 buf))
      × (buf
          ≡ wire_frame hdr.msg_type hdr.seq (take hdr.data_length (drop 7 buf))
            ++ drop (total_len hdr) buf)
unfolding payload
complete-wire_frame buf hdr bytes taken =
    let c = complete-IsChecked buf hdr taken in
    (payload-IsSendable buf hdr bytes c, frame_found buf hdr bytes c)
