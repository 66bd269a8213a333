-- ===== src/Diagnostic.antt =====
-- include/dji_serial_bridge/diagnostic_frames.hpp: the frame parser and the test frame of the
-- diagnostic tools, with checksums of their own. `std::size_t` has 64 bits.
pub mod Checksums
pub mod Parser
pub mod Counters
pub mod Events
pub mod Parses
pub mod Refines
pub mod Frames
pub mod Chunks
pub mod Session
pub mod Stream
pub mod Interop
pub mod Serial
pub mod Options
pub mod Debug
use ros2_dji_serial_bridge.Base.{
  ℕ, zero, suc, ◌+◌, ◌*◌, ◌/◌, ◌^◌, bit_and, bit_or, bit_xor, not, List, [], ◌∷◌, ◌++◌, length,
  take, drop, get_or, ltb, ◌==◌, if◌then◌else◌,
}
use ros2_dji_serial_bridge.Base.Bytes.{u8, u16, u64, byte_at}

-- The inner loop of `crc8`.
unfoldable pub crc8_bits : ℕ → ℕ → ℕ
crc8_bits zero crc = crc
crc8_bits (suc bits) crc =
    crc8_bits bits (u8 (bit_xor (crc / 2) (if bit_and crc 1 == 0 then 0 else 0x8c)))

unfoldable pub crc8_bytes : List ℕ → ℕ → ℕ
crc8_bytes [] crc = crc
crc8_bytes (byte ∷ data_left) crc = crc8_bytes data_left (crc8_bits 8 (bit_xor crc byte))

unfoldable pub crc8 : List ℕ → ℕ
crc8 bytes = crc8_bytes bytes 0xff

unfoldable pub nibble_table : List ℕ
nibble_table =
    0x0000 ∷ 0x1189 ∷ 0x2312 ∷ 0x329b ∷ 0x4624 ∷ 0x57ad ∷ 0x6536 ∷ 0x74bf ∷ 0x8c48 ∷ 0x9dc1 ∷ 0xaf5a
    ∷ 0xbed3 ∷ 0xca6c ∷ 0xdbe5 ∷ 0xe97e ∷ 0xf8f7 ∷ []

unfoldable pub nibble_step : ℕ → ℕ → ℕ
unfolding nibble_table
nibble_step crc byte = bit_xor (crc / 2 ^ 8) (get_or nibble_table (bit_and (bit_xor crc byte) 15) 0)

unfoldable pub crc16_bytes : List ℕ → ℕ → ℕ
crc16_bytes [] crc = crc
crc16_bytes (byte ∷ bytes) crc = crc16_bytes bytes (nibble_step crc byte)

unfoldable pub crc16 : List ℕ → ℕ
crc16 bytes = crc16_bytes bytes 0xffff

-- `read16` at an offset.
unfoldable pub read16 : List ℕ → ℕ → ℕ
read16 bytes i = bit_or (byte_at bytes i) (u16 (byte_at bytes (i + 1) * 2 ^ 8))

-- The floats 5.0 and 3.0.
abbrev pub test_payload : List ℕ
test_payload = 0 ∷ 0 ∷ 0xa0 ∷ 0x40 ∷ 0 ∷ 0 ∷ 0x40 ∷ 0x40 ∷ []

unfoldable pub test_frame : (sequence : ℕ) → List ℕ
test_frame sequence =
    let header = 0xa5 ∷ 8 ∷ 0 ∷ sequence ∷ [] in
    let frame = header ++ (crc8 header ∷ 4 ∷ 0 ∷ test_payload) in
    let crc = crc16 frame in frame ++ (u8 (bit_and crc 255) ∷ u8 (crc / 2 ^ 8) ∷ [])

-- What `append` prints, with the values of each line.
pub data Line : Type 0 where
  desync : (size : ℕ) → Line
  garbage : List ℕ → Line
  bad_crc8 : (received calculated : ℕ) → List ℕ → Line
  bad_length : (total : ℕ) → Line
  bad_crc16 : (received calculated : ℕ) → List ℕ → Line
  frame_ok : (seq msg len : ℕ) → List ℕ → Line

pub record FrameParser : Type 0 where
  pub frames : ℕ
  pub bad_crc8 : ℕ
  pub bad_crc16 : ℕ
  pub desyncs : ℕ
  pub buffer : List ℕ
  pub printed : List Line

-- `std::find` of the frame head: how many bytes stand before it, all if there is none.
unfoldable pub before_head : List ℕ → ℕ
before_head [] = 0
before_head (b ∷ bytes) = let rest = before_head bytes in if b == 0xa5 then 0 else suc rest

abbrev pub print : Line → FrameParser → FrameParser
print line p = record p { printed = p.printed ++ (line ∷ []) }

abbrev pub erase : ℕ → FrameParser → FrameParser
erase n p = record p { buffer = drop n p.buffer }

-- A turn of the loop goes on (`continue` or the end of the body), or leaves `append`.
pub data ParserTurn : Type 0 where
  again leave : FrameParser → ParserTurn

-- The CRC-16 check and the consumption of a whole frame.
unfoldable pub check_frame : (len : ℕ) → FrameParser → ParserTurn
check_frame len p =
    let total = 9 + len in
    let received = read16 p.buffer (7 + len) in
    let calculated = crc16 (take (7 + len) p.buffer) in
    if not (received == calculated)
    then ParserTurn.again (
        erase 1 (
          print (Line.bad_crc16 received calculated (take total p.buffer))
            (record p { bad_crc16 = u64 (p.bad_crc16 + 1) })))
    else ParserTurn.again (
        erase total (
          print
            (Line.frame_ok (byte_at p.buffer 3) (read16 p.buffer 5) len
              (take len (drop 7 p.buffer)))
            (record p { frames = u64 (p.frames + 1) })))

-- The turn from the frame head on.
unfoldable pub at_head : FrameParser → ParserTurn
at_head p =
    let len = read16 p.buffer 1 in
    let crc_header = crc8 (take 4 p.buffer) in
    if ltb (length p.buffer) 7
    then ParserTurn.leave p
    else if not (crc_header == byte_at p.buffer 4)
    then ParserTurn.again (
        erase 1 (
          print (Line.bad_crc8 (byte_at p.buffer 4) crc_header (take 7 p.buffer))
            (record p { bad_crc8 = u64 (p.bad_crc8 + 1) })))
    else if ltb 4096 (9 + len)
    then ParserTurn.again (erase 1 (print (Line.bad_length (9 + len)) p))
    else if ltb (length p.buffer) (9 + len)
    then ParserTurn.leave p
    else check_frame len p

-- The bytes before the frame head are skipped.
unfoldable pub skip_garbage : FrameParser → FrameParser
skip_garbage p =
    let size = before_head p.buffer in
    if size == 0
    then p
    else erase size
        (print (Line.garbage (take size p.buffer)) (record p { desyncs = u64 (p.desyncs + 1) }))

unfoldable pub parser_turn : FrameParser → ParserTurn
parser_turn p =
    if ltb (length p.buffer) 7
    then ParserTurn.leave p
    else if before_head p.buffer == length p.buffer
    then ParserTurn.leave
        (record (print (Line.desync (length p.buffer))
          (record p { desyncs = u64 (p.desyncs + 1) })) { buffer = [] })
    else at_head (skip_garbage p)

unfoldable pub parser_loop : ℕ → FrameParser → FrameParser
parser_loop zero p = p
parser_loop (suc fuel) p = elim (parser_turn p) [
  | ParserTurn.again q ↦ parser_loop fuel q
  | ParserTurn.leave q ↦ q
]

-- Each turn that goes on takes a byte at least; one more turn leaves.
unfoldable pub append : List ℕ → FrameParser → FrameParser
append bytes p =
    let loaded = record p { buffer = p.buffer ++ bytes } in
    parser_loop (suc (length loaded.buffer)) loaded
