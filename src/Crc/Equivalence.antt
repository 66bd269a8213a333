-- ===== src/Crc/Equivalence.antt =====
-- The table-driven checksums equal the bit-at-a-time specification.
use ros2_dji_serial_bridge.Base.{
  ℕ, ◌+◌, ◌*◌, ◌/◌, ◌%◌, ◌^◌, ◌<◌, bit_xor, ◌≡◌, refl, sym, ap, ap₂, ◌∙◌, arith, List, [], ◌∷◌,
  some, get_or,
}
use ros2_dji_serial_bridge.Base.Bits.{xor-lt, and_255, xor_fields, xor_shift_8, xor-zero}
use ros2_dji_serial_bridge.Base.Bytes.{AreBytes, same_below, agree_below}
use ros2_dji_serial_bridge.Crc.{
  crc8_table, crc16_table, crc8_step, crc8_loop, crc16_step, crc16_loop, calculate_crc8,
  calculate_crc16,
}
use ros2_dji_serial_bridge.Crc.Bounds.{crc8_step-lt}
use ros2_dji_serial_bridge.Crc.Reference.{shift_out, shift_bits, reflected_crc, poly8, poly16}
use ros2_dji_serial_bridge.Crc.Linear.{shift_bits-xor, shift_bits_even}

-- Each entry of a table is its index with eight bits shifted out.
crc8_table_entry : (i : ℕ) → i < 256 → get_or crc8_table i 0 ≡ shift_bits poly8 8 i
unfolding same_below crc8_table shift_bits shift_out
crc8_table_entry i = agree_below 256 (λ i. get_or crc8_table i 0) (shift_bits poly8 8) i refl

crc16_table_entry : (i : ℕ) → i < 256 → get_or crc16_table i 0 ≡ shift_bits poly16 8 i
unfolding same_below crc16_table shift_bits shift_out
crc16_table_entry i = agree_below 256 (λ i. get_or crc16_table i 0) (shift_bits poly16 8) i refl

pub crc8_step_bits :
    (crc byte : ℕ)
    → crc < 256
    → byte < 256
    → crc8_step crc byte ≡ shift_bits poly8 8 (bit_xor crc byte)
unfolding crc8_step
crc8_step_bits crc byte h k = crc8_table_entry (bit_xor crc byte) (xor-lt 8 crc byte h k)

pub crc8_loop_bits :
    (bytes : List ℕ) (crc : ℕ)
    → AreBytes bytes
    → crc < 256
    → crc8_loop bytes crc ≡ reflected_crc poly8 bytes crc
unfolding crc8_loop reflected_crc
crc8_loop_bits [] crc h k = refl
crc8_loop_bits (b ∷ bytes) crc h k =
    crc8_loop_bits bytes (crc8_step crc b) h.1 (crc8_step-lt crc b)
    ∙ ap (reflected_crc poly8 bytes) (crc8_step_bits crc b k h.0)

-- A word's eight shifts are its high byte, and the table entry of its low byte.
split_word : (x : ℕ) → shift_bits poly16 8 x ≡ bit_xor (x / 256) (get_or crc16_table (x % 256) 0)
split_word x =
    ap (shift_bits poly16 8) (sym (xor_fields 8 (x / 256) (x % 256) (omega arith) ∙ whole))
    ∙ shift_bits-xor poly16 8 (x / 256 * 2 ^ 8) (x % 256)
    ∙ ap₂ bit_xor (shift_bits_even poly16 8 (x / 256)) (sym (crc16_table_entry _ (omega arith)))
  where
    whole : x / 256 * 2 ^ 8 + x % 256 ≡ x
    whole = omega arith

crc16_step_bits :
    (crc byte : ℕ) → byte < 256 → crc16_step crc byte ≡ shift_bits poly16 8 (bit_xor crc byte)
unfolding crc16_step
crc16_step_bits crc byte h =
    ap₂ (λ a i. bit_xor a (get_or crc16_table i 0)) high (and_255 (bit_xor crc byte))
    ∙ sym (split_word (bit_xor crc byte))
  where
    zero_byte : 0 ≡ byte / 256
    zero_byte = omega arith

    high : crc / 2 ^ 8 ≡ bit_xor crc byte / 256
    high =
        sym (xor-zero (crc / 256)) ∙ ap (bit_xor (crc / 256)) zero_byte ∙ sym (xor_shift_8 crc byte)

crc16_loop_bits :
    (bytes : List ℕ) (crc : ℕ)
    → AreBytes bytes
    → crc16_loop bytes crc ≡ reflected_crc poly16 bytes crc
unfolding crc16_loop reflected_crc
crc16_loop_bits [] crc h = refl
crc16_loop_bits (b ∷ bytes) crc h =
    crc16_loop_bits bytes (crc16_step crc b) h.1
    ∙ ap (reflected_crc poly16 bytes) (crc16_step_bits crc b h.0)

-- The table-driven CRC-8 of bytes is the bit-at-a-time CRC-8 with polynomial 0x8c, from any start
-- value of a byte.
pub calculate_crc8-eq-reflected :
    (bytes : List ℕ) (crc : ℕ)
    → AreBytes bytes
    → crc < 256
    → calculate_crc8 (some bytes) crc ≡ reflected_crc poly8 bytes crc
unfolding calculate_crc8
calculate_crc8-eq-reflected = crc8_loop_bits

-- The table-driven CRC-16 of bytes is the bit-at-a-time CRC-16 with polynomial 0x8408, from any
-- start value.
pub calculate_crc16-eq-reflected :
    (bytes : List ℕ) (crc : ℕ)
    → AreBytes bytes
    → calculate_crc16 (some bytes) crc ≡ reflected_crc poly16 bytes crc
unfolding calculate_crc16
calculate_crc16-eq-reflected = crc16_loop_bits
