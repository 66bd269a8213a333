-- ===== src/Crc/Linear.antt =====
-- Shifting bits out is linear for exclusive or, so a byte's eight shifts can be tabulated.
use ros2_dji_serial_bridge.Base.{
  ℕ, zero, suc, ◌*◌, ◌/◌, ◌%◌, ◌^◌, bit_xor, ◌≡◌, refl, sym, ap, ap₂, ◌∙◌, arith, ◌==◌,
  if◌then◌else◌,
}
use ros2_dji_serial_bridge.Base.Bits.{xor_comm, xor_assoc, xor_self, xor-zero, xor-half, xor_digit}
use native.Mathlib.Nat.{pow-suc}
use ros2_dji_serial_bridge.Crc.Reference.{shift_out, shift_bits}

abbrev taken : ℕ → ℕ → ℕ
taken poly crc = if crc % 2 == 1 then poly else 0

-- A digit sum selects the exclusive or of the selections.
taken-xor : (poly a b : ℕ) → taken poly (bit_xor a b) ≡ bit_xor (taken poly a) (taken poly b)
taken-xor poly a b = ground (arith, xor_digit a b, xor_self poly, xor-zero poly, xor_comm 0 poly)

-- (a ^ b) ^ (c ^ d) regrouped.
xor_swap : (a b c d : ℕ) → bit_xor (bit_xor a b) (bit_xor c d) ≡ bit_xor (bit_xor a c) (bit_xor b d)
xor_swap a b c d =
    xor_assoc a b (bit_xor c d)
    ∙ ap (bit_xor a)
        (sym (xor_assoc b c d) ∙ ap (λ t. bit_xor t d) (xor_comm b c) ∙ xor_assoc c b d)
    ∙ sym (xor_assoc a c (bit_xor b d))

shift_out-xor :
    (poly a b : ℕ) → shift_out poly (bit_xor a b) ≡ bit_xor (shift_out poly a) (shift_out poly b)
unfolding shift_out
shift_out-xor poly a b =
    ap₂ bit_xor (xor-half a b) (taken-xor poly a b)
    ∙ xor_swap (a / 2) (b / 2) (taken poly a) (taken poly b)

pub shift_bits-xor :
    (poly n a b : ℕ)
    → shift_bits poly n (bit_xor a b) ≡ bit_xor (shift_bits poly n a) (shift_bits poly n b)
unfolding shift_bits
shift_bits-xor poly zero a b = refl
shift_bits-xor poly (suc n) a b =
    ap (shift_bits poly n) (shift_out-xor poly a b)
    ∙ shift_bits-xor poly n (shift_out poly a) (shift_out poly b)

shift_out_even : (poly a : ℕ) → shift_out poly (a * 2) ≡ a
unfolding shift_out
shift_out_even poly a = ground (arith, xor-zero a)

-- Zero bits are shifted out without touching the polynomial.
pub shift_bits_even : (poly n a : ℕ) → shift_bits poly n (a * 2 ^ n) ≡ a
unfolding shift_bits
shift_bits_even poly zero a = omega arith
shift_bits_even poly (suc n) a =
    ap (shift_bits poly n) (ap (shift_out poly) double ∙ shift_out_even poly (a * 2 ^ n))
    ∙ shift_bits_even poly n a
  where
    double : a * 2 ^ suc n ≡ a * 2 ^ n * 2
    double = omega (arith, ap (λ (t : ℕ). a * t) (pow-suc 2 n))
