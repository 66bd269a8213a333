-- ===== src/Crc/Injective.antt =====
-- A table entry determines its index, and a step of the CRC-16 forgets neither the state nor the byte.
use ros2_dji_serial_bridge.Base.{
  ℕ, ◌/◌, ◌%◌, ◌^◌, ◌<◌, bit_and, bit_xor, ◌≡◌, refl, sym, ap, ◌∙◌, arith, List, [], ◌∷◌, get_or,
  ◌==◌, if◌then◌else◌, suc,
}
use ros2_dji_serial_bridge.Base.Bits.{and_255, xor_shift_8, xor-zero, xor_cancel_right, zero-xor}
use ros2_dji_serial_bridge.Base.Bytes.{same_below, agree_below}
use ros2_dji_serial_bridge.Crc.{crc8_table, crc16_table, crc16_step}

-- The index of the first entry that passes through `f` to `v`.
index_of : (ℕ → ℕ) → List ℕ → ℕ → ℕ
index_of f [] v = 0
index_of f (x ∷ xs) v = let rest = index_of f xs v in if f x == v then 0 else suc rest

crc8_entry_index : (i : ℕ) → i < 256 → index_of (λ x. x) crc8_table (get_or crc8_table i 0) ≡ i
unfolding same_below crc8_table index_of
crc8_entry_index i =
    agree_below 256 (λ i. index_of (λ x. x) crc8_table (get_or crc8_table i 0)) (λ i. i) i refl

-- The high bytes of the CRC-16 table are a permutation of the bytes.
crc16_entry_index :
    (i : ℕ) → i < 256 → index_of (λ x. x / 256) crc16_table (get_or crc16_table i 0 / 256) ≡ i
unfolding same_below crc16_table index_of
crc16_entry_index i =
    agree_below 256 (λ i. index_of (λ x. x / 256) crc16_table (get_or crc16_table i 0 / 256))
      (λ i. i) i refl

pub crc8_entry_injective :
    (i j : ℕ) → i < 256 → j < 256 → get_or crc8_table i 0 ≡ get_or crc8_table j 0 → i ≡ j
crc8_entry_injective i j p q e =
    sym (crc8_entry_index i p) ∙ ap (index_of (λ x. x) crc8_table) e ∙ crc8_entry_index j q

crc16_entry_injective :
    (i j : ℕ)
    → i < 256
    → j < 256
    → get_or crc16_table i 0 / 256 ≡ get_or crc16_table j 0 / 256
    → i ≡ j
crc16_entry_injective i j p q e =
    sym (crc16_entry_index i p) ∙ ap (index_of (λ x. x / 256) crc16_table) e ∙ crc16_entry_index j q

-- A byte leaves the high byte of a word alone.
pub xor_byte_high : (c a : ℕ) → a < 256 → bit_xor c a / 256 ≡ c / 256
xor_byte_high c a h = xor_shift_8 c a ∙ ap (bit_xor (c / 256)) none_left ∙ xor-zero (c / 256)
  where
    none_left : a / 256 ≡ 0
    none_left = omega arith

-- The high byte of a stepped CRC-16 is that of the table entry, so it gives the entry's index.
pub crc16_step_high :
    (c d a b : ℕ)
    → c < 2 ^ 16
    → d < 2 ^ 16
    → crc16_step c a / 256 ≡ crc16_step d b / 256
    → bit_xor c a % 256 ≡ bit_xor d b % 256
unfolding crc16_step
crc16_step_high c d a b hc hd e =
    sym (and_255 (bit_xor c a))
    ∙ crc16_entry_injective _ _ (index_small c a) (index_small d b)
        (sym (high c a hc) ∙ e ∙ high d b hd)
    ∙ and_255 (bit_xor d b)
  where
    index_small : (c a : ℕ) → bit_and (bit_xor c a) 0xff < 256
    index_small c a = omega (arith, and_255 (bit_xor c a))

    high :
        (c a : ℕ)
        → c < 2 ^ 16
        → bit_xor (c / 2 ^ 8) (get_or crc16_table (bit_and (bit_xor c a) 0xff) 0) / 256
          ≡ get_or crc16_table (bit_and (bit_xor c a) 0xff) 0 / 256
    high c a hc =
        let entry = get_or crc16_table (bit_and (bit_xor c a) 0xff) 0 in
        let gone : c / 2 ^ 8 / 256 ≡ 0 = omega arith in
        xor_shift_8 (c / 2 ^ 8) entry
        ∙ ap (λ t. bit_xor t (entry / 256)) gone
        ∙ zero-xor (entry / 256)

pub crc16_step_injective :
    (c d a b : ℕ)
    → c < 2 ^ 16
    → d < 2 ^ 16
    → a < 256
    → b < 256
    → crc16_step c a ≡ crc16_step d b
    → bit_xor c a ≡ bit_xor d b
crc16_step_injective c d a b hc hd ha hb e =
    omega (arith, low, xor_byte_high c a ha, xor_byte_high d b hb, high)
  where
    low : bit_xor c a % 256 ≡ bit_xor d b % 256
    low = crc16_step_high c d a b hc hd (ap (λ t. t / 256) e)

    entry :
        bit_xor (c / 2 ^ 8) (get_or crc16_table (bit_xor c a % 256) 0)
        ≡ bit_xor (d / 2 ^ 8) (get_or crc16_table (bit_xor c a % 256) 0)
    entry = unfold crc16_step in rw (and_255 (bit_xor c a), and_255 (bit_xor d b), ← low) at e

    high : c / 256 ≡ d / 256
    high = xor_cancel_right (get_or crc16_table (bit_xor c a % 256) 0) (c / 256) (d / 256) entry
