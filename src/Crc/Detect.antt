-- ===== src/Crc/Detect.antt =====
-- What the checksums notice: a changed byte, and for the CRC-16 a changed pair of neighbours.
use ros2_dji_serial_bridge.Base.{
  ℕ, ◌/◌, ◌^◌, ◌<◌, bit_xor, ◌≡◌, ◌≢◌, sym, ap, ◌∙◌, arith, List, [], ◌∷◌, ◌++◌, some,
}
use ros2_dji_serial_bridge.Base.Bits.{xor-lt, xor_cancel_left, xor_cancel_right}
use ros2_dji_serial_bridge.Base.Bytes.{AreBytes}
use ros2_dji_serial_bridge.Crc.{
  crc8_step, crc8_loop, crc16_step, crc16_loop, calculate_crc8, calculate_crc16,
}
use ros2_dji_serial_bridge.Crc.Bounds.{
  crc8_step-lt, crc16_step-lt, crc8_loop-lt, crc16_loop-lt, crc8_loop-append, crc16_loop-append,
}
use ros2_dji_serial_bridge.Crc.Injective.{
  crc8_entry_injective, xor_byte_high, crc16_step_injective, crc16_step_high,
}

-- A step of the CRC-8 forgets neither the state nor the byte.
crc8_step_injective :
    (c d a b : ℕ)
    → c < 256
    → d < 256
    → a < 256
    → b < 256
    → crc8_step c a ≡ crc8_step d b
    → bit_xor c a ≡ bit_xor d b
unfolding crc8_step
crc8_step_injective c d a b hc hd ha hb e =
    crc8_entry_injective _ _ (xor-lt 8 c a hc ha) (xor-lt 8 d b hd hb) e

crc8_loop_injective :
    (bytes : List ℕ) (c d : ℕ)
    → AreBytes bytes
    → c < 256
    → d < 256
    → crc8_loop bytes c ≡ crc8_loop bytes d
    → c ≡ d
unfolding crc8_loop
crc8_loop_injective [] c d h hc hd e = e
crc8_loop_injective (b ∷ bytes) c d h hc hd e = xor_cancel_right b c d (
    crc8_step_injective c d b b hc hd h.0 h.0
      (crc8_loop_injective bytes _ _ h.1 (crc8_step-lt c b) (crc8_step-lt d b) e))

-- Equal checksums of two messages that differ in one place mean equal bytes there.
crc8_byte_injective :
    (front back : List ℕ) (a b crc : ℕ)
    → AreBytes back
    → a < 256
    → b < 256
    → crc < 256
    → calculate_crc8 (some (front ++ (a ∷ back))) crc
      ≡ calculate_crc8 (some (front ++ (b ∷ back))) crc
    → a ≡ b
unfolding calculate_crc8 crc8_loop
crc8_byte_injective front back a b crc hback ha hb hcrc e =
    let state = crc8_loop front crc in
    let small : state < 256 = crc8_loop-lt front crc hcrc in
    xor_cancel_left state a b (
      crc8_step_injective state state a b small small ha hb (
        crc8_loop_injective back _ _ hback (crc8_step-lt state a) (crc8_step-lt state b) (
          sym (crc8_loop-append front (a ∷ back) crc) ∙ e ∙ crc8_loop-append front (b ∷ back) crc)))

-- With one byte of a message replaced by another, the CRC-8 differs, from any start value of a byte.
pub crc8_detects_byte :
    (front back : List ℕ) (a b crc : ℕ)
    → AreBytes back
    → a < 256
    → b < 256
    → crc < 256
    → a ≢ b
    → calculate_crc8 (some (front ++ (a ∷ back))) crc
      ≢ calculate_crc8 (some (front ++ (b ∷ back))) crc
crc8_detects_byte front back a b crc hback ha hb hcrc differ e =
    differ (crc8_byte_injective front back a b crc hback ha hb hcrc e)

crc16_loop_injective :
    (bytes : List ℕ) (c d : ℕ)
    → AreBytes bytes
    → c < 2 ^ 16
    → d < 2 ^ 16
    → crc16_loop bytes c ≡ crc16_loop bytes d
    → c ≡ d
unfolding crc16_loop
crc16_loop_injective [] c d h hc hd e = e
crc16_loop_injective (b ∷ bytes) c d h hc hd e = xor_cancel_right b c d (
    crc16_step_injective c d b b hc hd h.0 h.0
      (crc16_loop_injective bytes _ _ h.1 (crc16_step-lt c b hc) (crc16_step-lt d b hd) e))

-- Two neighbouring bytes are both determined by the checksum state after them.
crc16_pair_injective :
    (c a₁ a₂ b₁ b₂ : ℕ)
    → c < 2 ^ 16
    → a₁ < 256
    → a₂ < 256
    → b₁ < 256
    → b₂ < 256
    → crc16_step (crc16_step c a₁) a₂ ≡ crc16_step (crc16_step c b₁) b₂
    → (a₁ ≡ b₁) × (a₂ ≡ b₂)
crc16_pair_injective c a₁ a₂ b₁ b₂ hc ha₁ ha₂ hb₁ hb₂ e = (first, second)
  where
    mixed : bit_xor (crc16_step c a₁) a₂ ≡ bit_xor (crc16_step c b₁) b₂
    mixed = crc16_step_injective _ _ a₂ b₂ (crc16_step-lt c a₁ hc) (crc16_step-lt c b₁ hc) ha₂ hb₂ e

    high : crc16_step c a₁ / 256 ≡ crc16_step c b₁ / 256
    high =
        sym (xor_byte_high (crc16_step c a₁) a₂ ha₂)
        ∙ ap (λ t. t / 256) mixed
        ∙ xor_byte_high (crc16_step c b₁) b₂ hb₂

    first : a₁ ≡ b₁
    first = xor_cancel_left c a₁ b₁ (
        omega (
          arith,
          crc16_step_high c c a₁ b₁ hc hc high,
          xor_byte_high c a₁ ha₁,
          xor_byte_high c b₁ hb₁,
        ))

    second : a₂ ≡ b₂
    second =
        xor_cancel_left (crc16_step c a₁) a₂ b₂
          (mixed ∙ ap (λ t. bit_xor (crc16_step c t) b₂) (sym first))

-- Equal checksums of two messages that differ in two neighbouring places mean equal bytes there.
crc16_neighbours_injective :
    (front back : List ℕ) (a₁ a₂ b₁ b₂ crc : ℕ)
    → AreBytes back
    → a₁ < 256
    → a₂ < 256
    → b₁ < 256
    → b₂ < 256
    → crc < 2 ^ 16
    → calculate_crc16 (some (front ++ (a₁ ∷ a₂ ∷ back))) crc
      ≡ calculate_crc16 (some (front ++ (b₁ ∷ b₂ ∷ back))) crc
    → (a₁ ≡ b₁) × (a₂ ≡ b₂)
unfolding calculate_crc16 crc16_loop
crc16_neighbours_injective front back a₁ a₂ b₁ b₂ crc hback ha₁ ha₂ hb₁ hb₂ hcrc e =
    let state = crc16_loop front crc in
    let small : state < 2 ^ 16 = crc16_loop-lt front crc hcrc in
    crc16_pair_injective state a₁ a₂ b₁ b₂ small ha₁ ha₂ hb₁ hb₂ (
      crc16_loop_injective back _ _ hback (crc16_step-lt _ a₂ (crc16_step-lt state a₁ small))
        (crc16_step-lt _ b₂ (crc16_step-lt state b₁ small))
        (sym (crc16_loop-append front (a₁ ∷ a₂ ∷ back) crc)
          ∙ e
          ∙ crc16_loop-append front (b₁ ∷ b₂ ∷ back) crc))

-- With one or both of two neighbouring bytes of a message replaced, the CRC-16 differs, from any
-- start value of a 16-bit word.
pub crc16_detects_pair :
    (front back : List ℕ) (a₁ a₂ b₁ b₂ crc : ℕ)
    → AreBytes back
    → a₁ < 256
    → a₂ < 256
    → b₁ < 256
    → b₂ < 256
    → crc < 2 ^ 16
    → ¬ ((a₁ ≡ b₁) × (a₂ ≡ b₂))
    → calculate_crc16 (some (front ++ (a₁ ∷ a₂ ∷ back))) crc
      ≢ calculate_crc16 (some (front ++ (b₁ ∷ b₂ ∷ back))) crc
crc16_detects_pair front back a₁ a₂ b₁ b₂ crc hback ha₁ ha₂ hb₁ hb₂ hcrc differ e =
    differ (crc16_neighbours_injective front back a₁ a₂ b₁ b₂ crc hback ha₁ ha₂ hb₁ hb₂ hcrc e)
