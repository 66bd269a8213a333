-- ===== src/Diagnostic/Checksums.antt =====
-- The checksums of the diagnostic tools against those of the bridge.
use ros2_dji_serial_bridge.Base.{
  ℕ, zero, suc, ◌/◌, ◌%◌, ◌^◌, ◌<◌, bit_and, bit_xor, ◌≡◌, refl, sym, ap, ◌∙◌, arith, List, [], ◌∷◌,
  some, get_or, if◌then◌else◌, ◌==◌,
}
use ros2_dji_serial_bridge.Base.Bits.{and_one, and_15, xor-lt, xor-half, xor_digit}
use ros2_dji_serial_bridge.Base.Bytes.{AreBytes, u8}
use ros2_dji_serial_bridge.Crc.{calculate_crc8, crc8_init}
use ros2_dji_serial_bridge.Crc.Reference.{shift_out, shift_bits, reflected_crc, poly8}
use ros2_dji_serial_bridge.Crc.Equivalence.{calculate_crc8-eq-reflected}
use ros2_dji_serial_bridge.Diagnostic.{
  crc8_bits, crc8_bytes, crc8, nibble_table, nibble_step, crc16_bytes, crc16,
}

-- The inner loop shifts out the bits of a byte.
shift_out-lt : (crc : ℕ) → crc < 256 → shift_out poly8 crc < 256
unfolding shift_out
shift_out-lt crc h =
    xor-lt 8 (crc / 2) (if crc % 2 == 1 then poly8 else 0) (omega arith) (ground arith)

shift_bits-lt : (n crc : ℕ) → crc < 256 → shift_bits poly8 n crc < 256
unfolding shift_bits
shift_bits-lt zero crc h = h
shift_bits-lt (suc n) crc h = shift_bits-lt n (shift_out poly8 crc) (shift_out-lt crc h)

one_bit :
    (crc : ℕ)
    → crc < 256
    → u8 (bit_xor (crc / 2) (if bit_and crc 1 == 0 then 0 else 0x8c)) ≡ shift_out poly8 crc
one_bit crc h = ap u8 (same_choice ∙ refl) ∙ narrow
  where
    same_choice : bit_xor (crc / 2) (if bit_and crc 1 == 0 then 0 else 0x8c) ≡ shift_out poly8 crc
    same_choice = unfold shift_out in ground (arith, and_one crc)

    narrow : u8 (shift_out poly8 crc) ≡ shift_out poly8 crc
    narrow = omega (arith, shift_out-lt crc h)

crc8_bits-eq-shift_bits : (n crc : ℕ) → crc < 256 → crc8_bits n crc ≡ shift_bits poly8 n crc
unfolding crc8_bits shift_bits
crc8_bits-eq-shift_bits zero crc h = refl
crc8_bits-eq-shift_bits (suc n) crc h =
    ap (crc8_bits n) (one_bit crc h)
    ∙ crc8_bits-eq-shift_bits n (shift_out poly8 crc) (shift_out-lt crc h)

crc8_bytes-eq-reflected :
    (bytes : List ℕ) (crc : ℕ)
    → AreBytes bytes
    → crc < 256
    → crc8_bytes bytes crc ≡ reflected_crc poly8 bytes crc
unfolding crc8_bytes reflected_crc
crc8_bytes-eq-reflected [] crc h k = refl
crc8_bytes-eq-reflected (b ∷ bytes) crc h k =
    let mixed = xor-lt 8 crc b k h.0 in
    ap (crc8_bytes bytes) (crc8_bits-eq-shift_bits 8 (bit_xor crc b) mixed)
    ∙ crc8_bytes-eq-reflected bytes (shift_bits poly8 8 (bit_xor crc b)) h.1
        (shift_bits-lt 8 (bit_xor crc b) mixed)

-- The diagnostic tools' CRC-8, computed bit by bit, is the bridge's table-driven CRC-8 on any bytes.
pub crc8-eq-calculate_crc8 :
    (bytes : List ℕ) → AreBytes bytes → crc8 bytes ≡ calculate_crc8 (some bytes) crc8_init
unfolding crc8
crc8-eq-calculate_crc8 bytes h =
    crc8_bytes-eq-reflected bytes 0xff h (omega arith)
    ∙ sym (calculate_crc8-eq-reflected bytes 0xff h (omega arith))

-- The lowest digits of an exclusive or depend on the lowest digits only.
xor_low_2 : (c a b : ℕ) → a % 2 ≡ b % 2 → bit_xor c a % 2 ≡ bit_xor c b % 2
xor_low_2 c a b h = omega (arith, xor_digit c a, xor_digit c b)

xor_low_4 : (c a b : ℕ) → a % 4 ≡ b % 4 → bit_xor c a % 4 ≡ bit_xor c b % 4
xor_low_4 c a b h = omega (
  arith,
  xor-half c a,
  xor-half c b,
  xor_low_2 c a b (omega arith),
  xor_low_2 (c / 2) (a / 2) (b / 2) (omega arith),
)

xor_low_16 : (c a b : ℕ) → a % 16 ≡ b % 16 → bit_xor c a % 16 ≡ bit_xor c b % 16
xor_low_16 c a b h = omega (
  arith,
  quarter c a,
  quarter c b,
  xor_low_4 c a b (omega arith),
  xor_low_4 (c / 2 / 2) (a / 2 / 2) (b / 2 / 2) (omega arith),
)
  where
    quarter : (x y : ℕ) → bit_xor x y / 4 ≡ bit_xor (x / 2 / 2) (y / 2 / 2)
    quarter x y = omega (arith, xor-half x y, xor-half (x / 2) (y / 2))

nibble_step_low : (crc a b : ℕ) → a % 16 ≡ b % 16 → nibble_step crc a ≡ nibble_step crc b
unfolding nibble_step
nibble_step_low crc a b h =
    ap (λ i. bit_xor (crc / 2 ^ 8) (get_or nibble_table i 0))
      (and_15 (bit_xor crc a) ∙ xor_low_16 crc a b h ∙ sym (and_15 (bit_xor crc b)))

abbrev pub SameLowHalves : List ℕ → List ℕ → Type 0
SameLowHalves [] [] = Unit {0}
SameLowHalves (a ∷ xs) (b ∷ ys) = (a % 16 ≡ b % 16) × SameLowHalves xs ys
SameLowHalves _ _ = ⊥

crc16_bytes_low :
    (xs ys : List ℕ) (crc : ℕ) → SameLowHalves xs ys → crc16_bytes xs crc ≡ crc16_bytes ys crc
unfolding crc16_bytes
crc16_bytes_low [] [] crc h = refl
crc16_bytes_low [] (b ∷ ys) crc h = absurd h
crc16_bytes_low (a ∷ xs) [] crc h = absurd h
crc16_bytes_low (a ∷ xs) (b ∷ ys) crc h =
    ap (crc16_bytes xs) (nibble_step_low crc a b h.0)
    ∙ crc16_bytes_low xs ys (nibble_step crc b) h.1

-- The diagnostic CRC-16 does not see the high half of a byte: two messages whose bytes agree in their
-- low halves have the same checksum.
pub crc16_blind_high_halves : (xs ys : List ℕ) → SameLowHalves xs ys → crc16 xs ≡ crc16 ys
unfolding crc16
crc16_blind_high_halves xs ys h = crc16_bytes_low xs ys 0xffff h
