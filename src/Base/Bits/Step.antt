-- ===== src/Base/Bits/Step.antt =====
-- The lowest digit of each bit operation, from the digit recursion that the library gives for it.
use Prim.Native.Nat.{
  ℕ, zero, suc, ◌+◌, ◌*◌, ◌/◌, ◌%◌, ◌≤◌, ◌<◌, min, max, differ, digits, bit_and, bit_or, bit_xor,
  bit_and-bitwise, bit_or-bitwise, bit_xor-bitwise,
}
use mathlib.Core.Path.{◌≡◌, refl, sym, ap, ◌∙◌}
use native.Mathlib.Omega.{arith}

-- An operation on numbers that is `digit` on each digit, and `end` of the second number once the
-- first has run out, where `end` is such an operation itself.
module _ (end : ℕ → ℕ) (digit : ℕ → ℕ → ℕ) where
  run_out : (fuel y : ℕ) → digits end digit fuel 0 y ≡ end y
  run_out zero y = refl
  run_out (suc fuel) y = refl

  -- Fuel beyond the first number changes nothing.
  spare :
      (more fuel x y : ℕ)
      → fuel ≤ more
      → x ≤ fuel
      → digits end digit more x y ≡ digits end digit fuel x y
  spare more fuel zero y g h = run_out more y ∙ sym (run_out fuel y)
  spare more zero (suc x) y g h = absurd (omega arith)
  spare zero (suc fuel) (suc x) y g h = absurd (omega arith)
  spare (suc more) (suc fuel) (suc x) y g h =
      ap (λ (high : ℕ). high * 2 + digit (suc x % 2) (y % 2))
        (spare more fuel (suc x / 2) (y / 2) (omega arith) (omega arith))

  module _ (op : ℕ → ℕ → ℕ) (meaning : (x y : ℕ) → op x y ≡ digits end digit x x y)
      (end_digit : (y : ℕ) → end y ≡ end (y / 2) * 2 + digit 0 (y % 2)) where
    lowest_digit : (x y : ℕ) → op x y ≡ op (x / 2) (y / 2) * 2 + digit (x % 2) (y % 2)
    lowest_digit zero y = omega (arith, meaning 0 y, meaning 0 (y / 2), end_digit y)
    lowest_digit (suc x) y =
        let half = suc x / 2 in
        meaning (suc x) y
        ∙ ap (λ (high : ℕ). high * 2 + digit (suc x % 2) (y % 2))
            (spare x half half (y / 2) (omega arith) (omega arith) ∙ sym (meaning half (y / 2)))

pub bit_and_step : (a b : ℕ) → bit_and a b ≡ bit_and (a / 2) (b / 2) * 2 + min (a % 2) (b % 2)
bit_and_step = lowest_digit (λ b. 0) min bit_and bit_and-bitwise (λ b. omega arith)

pub bit_or_step : (a b : ℕ) → bit_or a b ≡ bit_or (a / 2) (b / 2) * 2 + max (a % 2) (b % 2)
bit_or_step = lowest_digit (λ b. b) max bit_or bit_or-bitwise (λ b. omega arith)

-- The exclusive or of two digits is their sum without the carry.
differ-mod : (a b : ℕ) → a < 2 → b < 2 → differ a b ≡ (a + b) % 2
differ-mod zero b h k = omega arith
differ-mod (suc zero) zero h k = refl
differ-mod (suc zero) (suc zero) h k = refl
differ-mod (suc zero) (suc (suc b)) h k = absurd (omega arith)
differ-mod (suc (suc a)) b h k = absurd (omega arith)

pub bit_xor_step : (a b : ℕ) → bit_xor a b ≡ bit_xor (a / 2) (b / 2) * 2 + (a + b) % 2
bit_xor_step a b = omega (
  arith,
  lowest_digit (λ b. b) differ bit_xor bit_xor-bitwise (λ b. omega arith) a b,
  differ-mod (a % 2) (b % 2) (omega arith) (omega arith),
)
