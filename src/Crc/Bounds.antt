-- ===== src/Crc/Bounds.antt =====
-- The tables as functions on bytes, the widths of the checksums, and how they split over `++`.
use ros2_dji_serial_bridge.Base.{
  ℕ, ◌^◌, ◌<◌, bit_xor, ◌≡◌, refl, arith, List, [], ◌∷◌, ◌++◌, some, All, All-get_or,
}
use ros2_dji_serial_bridge.Base.Bits.{xor-lt}
use ros2_dji_serial_bridge.Crc.{
  crc8_table, crc16_table, crc8_step, crc8_loop, crc16_step, crc16_loop, calculate_crc8,
  calculate_crc16, crc8_init, crc16_init,
}

crc8_table-lt : All (λ v. v < 2 ^ 8) crc8_table
unfolding crc8_table
crc8_table-lt = omega arith

crc16_table-lt : All (λ v. v < 2 ^ 16) crc16_table
unfolding crc16_table
crc16_table-lt = omega arith

pub crc8_step-lt : (crc byte : ℕ) → crc8_step crc byte < 256
unfolding crc8_step
crc8_step-lt crc byte =
    All-get_or (λ v. v < 2 ^ 8) crc8_table (bit_xor crc byte) 0 crc8_table-lt (omega arith)

pub crc16_step-lt : (crc byte : ℕ) → crc < 2 ^ 16 → crc16_step crc byte < 2 ^ 16
unfolding crc16_step
crc16_step-lt crc byte h =
    xor-lt 16 _ _ (omega arith)
      (All-get_or (λ v. v < 2 ^ 16) crc16_table _ 0 crc16_table-lt (omega arith))

pub crc8_loop-lt : (bytes : List ℕ) (crc : ℕ) → crc < 256 → crc8_loop bytes crc < 256
unfolding crc8_loop
crc8_loop-lt [] crc h = h
crc8_loop-lt (b ∷ bytes) crc h = crc8_loop-lt bytes _ (crc8_step-lt crc b)

pub crc16_loop-lt : (bytes : List ℕ) (crc : ℕ) → crc < 2 ^ 16 → crc16_loop bytes crc < 2 ^ 16
unfolding crc16_loop
crc16_loop-lt [] crc h = h
crc16_loop-lt (b ∷ bytes) crc h = crc16_loop-lt bytes _ (crc16_step-lt crc b h)

pub crc8_loop-append :
    (xs ys : List ℕ) (crc : ℕ) → crc8_loop (xs ++ ys) crc ≡ crc8_loop ys (crc8_loop xs crc)
unfolding crc8_loop
crc8_loop-append [] ys crc = refl
crc8_loop-append (x ∷ xs) ys crc = crc8_loop-append xs ys _

pub crc16_loop-append :
    (xs ys : List ℕ) (crc : ℕ) → crc16_loop (xs ++ ys) crc ≡ crc16_loop ys (crc16_loop xs crc)
unfolding crc16_loop
crc16_loop-append [] ys crc = refl
crc16_loop-append (x ∷ xs) ys crc = crc16_loop-append xs ys _

pub calculate_crc8-lt : (bytes : List ℕ) → calculate_crc8 (some bytes) crc8_init < 256
unfolding calculate_crc8
calculate_crc8-lt bytes = crc8_loop-lt bytes 255 (omega arith)

pub calculate_crc16-lt : (bytes : List ℕ) → calculate_crc16 (some bytes) crc16_init < 2 ^ 16
unfolding calculate_crc16
calculate_crc16-lt bytes = crc16_loop-lt bytes 65535 (omega arith)
