-- ===== src/Crc.antt =====
-- src/crc_dji.cpp and include/dji_serial_bridge/crc_dji.hpp: the table-driven checksums of the
-- frames. A pointer with a length is a slice, `none` for a null pointer.
mod Table8
mod Table16
pub mod Bounds
pub mod Reference
mod Linear
mod Injective
pub mod Equivalence
pub mod Detect
unfoldable pub use Table8.{crc8_table}
unfoldable pub use Table16.{crc16_table}
use ros2_dji_serial_bridge.Base.{
  ℕ, ◌/◌, ◌^◌, bit_and, bit_xor, List, [], ◌∷◌, Option, none, some, get_or,
}

abbrev pub crc8_init : ℕ
crc8_init = 0xff

abbrev pub crc16_init : ℕ
crc16_init = 0xffff

-- One turn of the loop of `calculateCRC8`.
unfoldable pub crc8_step : ℕ → ℕ → ℕ
crc8_step crc byte = get_or crc8_table (bit_xor crc byte) 0

unfoldable pub crc8_loop : List ℕ → ℕ → ℕ
crc8_loop [] crc = crc
crc8_loop (byte ∷ message) crc = crc8_loop message (crc8_step crc byte)

unfoldable pub calculate_crc8 : Option (List ℕ) → ℕ → ℕ
unfolding crc8_loop
calculate_crc8 none crc = crc
calculate_crc8 (some message) crc = crc8_loop message crc

-- One turn of the loop of `calculateCRC16`.
unfoldable pub crc16_step : ℕ → ℕ → ℕ
crc16_step crc byte =
    bit_xor (crc / 2 ^ 8) (get_or crc16_table (bit_and (bit_xor crc byte) 0x00ff) 0)

unfoldable pub crc16_loop : List ℕ → ℕ → ℕ
crc16_loop [] crc = crc
crc16_loop (byte ∷ message) crc = crc16_loop message (crc16_step crc byte)

unfoldable pub calculate_crc16 : Option (List ℕ) → ℕ → ℕ
unfolding crc16_loop
calculate_crc16 none crc = crc
calculate_crc16 (some message) crc = crc16_loop message crc
