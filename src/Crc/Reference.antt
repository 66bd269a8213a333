-- ===== src/Crc/Reference.antt =====
-- What the tables stand for: a reflected CRC, one bit at a time. This is a specification, not code.
use ros2_dji_serial_bridge.Base.{
  ℕ, zero, suc, ◌/◌, ◌%◌, bit_xor, List, [], ◌∷◌, ◌==◌, if◌then◌else◌,
}

-- Shift out the lowest bit, and take the polynomial off if that bit was set.
unfoldable pub shift_out : ℕ → ℕ → ℕ
shift_out poly crc = bit_xor (crc / 2) (if crc % 2 == 1 then poly else 0)

unfoldable pub shift_bits : ℕ → ℕ → ℕ → ℕ
shift_bits poly zero crc = crc
shift_bits poly (suc n) crc = shift_bits poly n (shift_out poly crc)

-- The checksum of a list of bytes with the reversed polynomial `poly`.
unfoldable pub reflected_crc : ℕ → List ℕ → ℕ → ℕ
reflected_crc poly [] crc = crc
reflected_crc poly (byte ∷ bytes) crc =
    reflected_crc poly bytes (shift_bits poly 8 (bit_xor crc byte))

-- x^8 + x^5 + x^4 + 1, reversed.
abbrev pub poly8 : ℕ
poly8 = 0x8c

-- x^16 + x^12 + x^5 + 1, reversed.
abbrev pub poly16 : ℕ
poly16 = 0x8408
