-- ===== src/Base/Bits/Mask.antt =====
-- Masks of low bits as remainders, and shifts of an exclusive or.
use Prim.Native.Nat.{ℕ, zero, suc, ◌/◌, ◌%◌, ◌≤◌, bit_and, bit_xor}
use mathlib.Core.Path.{◌≡◌, refl, ap₂}
use native.Mathlib.Nat.{le_refl}
use native.Mathlib.Omega.{arith}
use ros2_dji_serial_bridge.Base.Bits.Step.{bit_and_step}
use ros2_dji_serial_bridge.Base.Bits.Xor.{xor-half}

and_zero_below : (n a : ℕ) → a ≤ n → bit_and a 0 ≡ 0
and_zero_below zero zero p = refl
and_zero_below zero (suc a) p = absurd (omega arith)
and_zero_below (suc n) a p = omega (arith, bit_and_step a 0, and_zero_below n (a / 2) (omega arith))

pub and-zero : (a : ℕ) → bit_and a 0 ≡ 0
and-zero a = and_zero_below a a (le_refl a)

pub and_one : (a : ℕ) → bit_and a 1 ≡ a % 2
and_one a = omega (arith, bit_and_step a 1, and-zero (a / 2))

and_3 : (a : ℕ) → bit_and a 3 ≡ a % 4
and_3 a = omega (arith, bit_and_step a 3, and_one (a / 2))

pub and_15 : (a : ℕ) → bit_and a 15 ≡ a % 16
and_15 a = omega (arith, bit_and_step a 15, bit_and_step (a / 2) 7, and_3 (a / 2 / 2))

pub and_255 : (a : ℕ) → bit_and a 255 ≡ a % 256
and_255 a = omega (
  arith,
  bit_and_step a 255,
  bit_and_step (a / 2) 127,
  bit_and_step (a / 2 / 2) 63,
  bit_and_step (a / 2 / 2 / 2) 31,
  and_15 (a / 2 / 2 / 2 / 2),
)

-- Shifts of an exclusive or, a digit at a time.
xor_shift_2 : (a b : ℕ) → bit_xor a b / 4 ≡ bit_xor (a / 4) (b / 4)
xor_shift_2 a b =
    omega (arith, xor-half a b, xor-half (a / 2) (b / 2), ap₂ bit_xor (quarter a) (quarter b))
  where
    quarter : (t : ℕ) → t / 2 / 2 ≡ t / 4
    quarter t = omega arith

xor_shift_4 : (a b : ℕ) → bit_xor a b / 16 ≡ bit_xor (a / 16) (b / 16)
xor_shift_4 a b =
    omega (arith, xor_shift_2 a b, xor_shift_2 (a / 4) (b / 4), ap₂ bit_xor (part a) (part b))
  where
    part : (t : ℕ) → t / 4 / 4 ≡ t / 16
    part t = omega arith

pub xor_shift_8 : (a b : ℕ) → bit_xor a b / 256 ≡ bit_xor (a / 256) (b / 256)
xor_shift_8 a b =
    omega (arith, xor_shift_4 a b, xor_shift_4 (a / 16) (b / 16), ap₂ bit_xor (part a) (part b))
  where
    part : (t : ℕ) → t / 16 / 16 ≡ t / 256
    part t = omega arith
