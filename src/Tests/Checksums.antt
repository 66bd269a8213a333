-- ===== src/Tests/Checksums.antt =====
-- The checksums.
use ros2_dji_serial_bridge.Base.{ℕ, ◌≢◌, ◌≡◌, refl, arith, List, [], ◌∷◌, ◌++◌, some}
use ros2_dji_serial_bridge.Base.Bytes.{AreBytes}
use ros2_dji_serial_bridge.Crc.{
  calculate_crc8, calculate_crc16, crc8_init, crc16_init, crc8_table, crc16_table, crc8_loop,
  crc16_loop, crc8_step, crc16_step,
}
use ros2_dji_serial_bridge.Crc.Reference.{reflected_crc, poly8, poly16}
use ros2_dji_serial_bridge.Crc.Equivalence.{
  calculate_crc8-eq-reflected, calculate_crc16-eq-reflected,
}
use ros2_dji_serial_bridge.Crc.Detect.{crc8_detects_byte, crc16_detects_pair}

-- The text 123456789, whose reflected CRC-16 from 0xffff is the catalogued 0x6f91.
abbrev digits : List ℕ
digits = 49 ∷ 50 ∷ 51 ∷ 52 ∷ 53 ∷ 54 ∷ 55 ∷ 56 ∷ 57 ∷ []

digits_bytes : AreBytes digits
digits_bytes = omega arith

crc16_test : calculate_crc16 (some digits) crc16_init ≡ 0x6f91
unfolding calculate_crc16 crc16_loop crc16_step crc16_table
crc16_test = refl

crc8_test : calculate_crc8 (some (0xa5 ∷ 1 ∷ 0 ∷ 3 ∷ [])) crc8_init ≡ 138
unfolding calculate_crc8 crc8_loop crc8_step crc8_table
crc8_test = refl

calculate_crc8-eq-reflected_example :
    calculate_crc8 (some digits) 0xff ≡ reflected_crc poly8 digits 0xff
calculate_crc8-eq-reflected_example =
    calculate_crc8-eq-reflected digits 0xff digits_bytes (omega arith)

calculate_crc16-eq-reflected_example :
    calculate_crc16 (some digits) 0xffff ≡ reflected_crc poly16 digits 0xffff
calculate_crc16-eq-reflected_example = calculate_crc16-eq-reflected digits 0xffff digits_bytes

crc8_detects_byte_example :
    calculate_crc8 (some ((1 ∷ []) ++ (7 ∷ digits))) 0xff
    ≢ calculate_crc8 (some ((1 ∷ []) ++ (9 ∷ digits))) 0xff
crc8_detects_byte_example =
    crc8_detects_byte (1 ∷ []) digits 7 9 0xff digits_bytes (omega arith) (omega arith)
      (omega arith) (λ e. omega (arith, e))

crc16_detects_pair_example :
    calculate_crc16 (some ((1 ∷ []) ++ (7 ∷ 8 ∷ digits))) 0xffff
    ≢ calculate_crc16 (some ((1 ∷ []) ++ (7 ∷ 0 ∷ digits))) 0xffff
crc16_detects_pair_example =
    crc16_detects_pair (1 ∷ []) digits 7 8 7 0 0xffff digits_bytes (omega arith) (omega arith)
      (omega arith) (omega arith) (omega arith) (λ e. omega (arith, e.1))
