-- ===== src/Node/Receive/Scan.antt =====
-- What a verdict of `scan` says of the buffer, and that more bytes behind it do not change it.
use ros2_dji_serial_bridge.Base.{
  ℕ, ◌+◌, ◌≤◌, ◌<◌, ◌≡◌, ◌≢◌, arith, Bool, true, List, ◌++◌, some, length, take, get_or-append_left,
  take-append_left, length-append,
}
use ros2_dji_serial_bridge.Base.Bytes.{byte_at}
use ros2_dji_serial_bridge.Crc.{calculate_crc8, calculate_crc16, crc8_init, crc16_init}
use ros2_dji_serial_bridge.Protocol.{FrameHeader, read_header, u16_at, crc8_coverage, frame_head}
use ros2_dji_serial_bridge.Node.Receive.{Verdict, scan, scan_body, total_len}

-- What each verdict says of the buffer.
abbrev pub Supported : Bool → Verdict → List ℕ → Type 0
Supported enforce Verdict.too_short buf = length buf < 9
Supported enforce Verdict.partial buf =
    (9 ≤ length buf) × (length buf < total_len (read_header buf))
Supported enforce Verdict.not_head buf = (9 ≤ length buf) × (byte_at buf 0 ≢ frame_head)
Supported enforce (Verdict.bad_crc8 expected hdr) buf =
    (9 ≤ length buf)
    × (enforce ≡ true)
    × (hdr ≡ read_header buf)
    × (expected ≡ calculate_crc8 (some (take crc8_coverage buf)) crc8_init)
    × (expected ≢ hdr.crc8)
Supported enforce (Verdict.bad_crc16 received calculated hdr) buf =
    (total_len hdr ≤ length buf)
    × (enforce ≡ true)
    × (hdr ≡ read_header buf)
    × (received ≢ calculated)
Supported enforce (Verdict.complete hdr) buf =
    (total_len hdr ≤ length buf)
    × (byte_at buf 0 ≡ frame_head)
    × (hdr ≡ read_header buf)
    × (enforce ≡ true
        → (calculate_crc8 (some (take crc8_coverage buf)) crc8_init ≡ hdr.crc8)
          × (u16_at buf (7 + hdr.data_length)
              ≡ calculate_crc16 (some (take (7 + hdr.data_length) buf)) crc16_init))

scan_body-Supported :
    (enforce : Bool) (hdr : FrameHeader) (buf : List ℕ)
    → 9 ≤ length buf
    → byte_at buf 0 ≡ frame_head
    → hdr ≡ read_header buf
    → (enforce ≡ true → calculate_crc8 (some (take crc8_coverage buf)) crc8_init ≡ hdr.crc8)
    → Supported enforce (scan_body enforce hdr buf) buf
unfolding scan_body
scan_body-Supported enforce hdr buf long head e crc8 = ground arith

pub scan-Supported : (enforce : Bool) (buf : List ℕ) → Supported enforce (scan enforce buf) buf
unfolding scan
scan-Supported enforce buf = ground (arith, scan_body-Supported enforce (read_header buf) buf)

-- Nine bytes hold the header, so what follows them does not change it.
read_header-append :
    (buf more : List ℕ) → 9 ≤ length buf → read_header (buf ++ more) ≡ read_header buf
unfolding read_header
read_header-append buf more h = ground (
  arith,
  get_or-append_left buf more 0 0,
  get_or-append_left buf more 1 0,
  get_or-append_left buf more 2 0,
  get_or-append_left buf more 3 0,
  get_or-append_left buf more 4 0,
  get_or-append_left buf more 5 0,
  get_or-append_left buf more 6 0,
)

scan_body-append :
    (enforce : Bool) (hdr : FrameHeader) (buf more : List ℕ)
    → scan_body enforce hdr buf ≢ Verdict.partial
    → scan_body enforce hdr (buf ++ more) ≡ scan_body enforce hdr buf
unfolding scan_body
scan_body-append enforce hdr buf more whole = ground (
  arith,
  length-append buf more,
  get_or-append_left buf more (7 + hdr.data_length) 0,
  get_or-append_left buf more (7 + hdr.data_length + 1) 0,
  take-append_left (7 + hdr.data_length) buf more,
)

-- A verdict that is not a wait stays when more bytes arrive behind the buffer.
pub scan-append :
    (enforce : Bool) (buf more : List ℕ)
    → scan enforce buf ≢ Verdict.too_short
    → scan enforce buf ≢ Verdict.partial
    → scan enforce (buf ++ more) ≡ scan enforce buf
unfolding scan
scan-append enforce buf more long whole = ground (
  arith,
  length-append buf more,
  read_header-append buf more,
  get_or-append_left buf more 0 0,
  take-append_left 4 buf more,
  scan_body-append enforce (read_header buf) buf more,
)
