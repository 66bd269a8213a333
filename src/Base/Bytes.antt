-- ===== src/Base/Bytes.antt =====
-- Bytes and the fixed widths: casts, checks of every value below a bound, reads at an offset.
use Prim.Native.Nat.{ℕ, zero, suc, ◌%◌, ◌^◌, ◌<◌}
use mathlib.Core.Path.{◌≡◌}
use mathlib.Core.Bool.{Bool, true, ◌&&◌}
use mathlib.Core.List.{List}
use native.Mathlib.Omega.{arith}
use ros2_dji_serial_bridge.Base.Tests.{◌==◌}
use ros2_dji_serial_bridge.Base.Lists.{get_or, All}

-- The casts `uint8_t`, `uint16_t`, `uint32_t`, `uint64_t`.
abbrev pub u8 : ℕ → ℕ
u8 n = n % 2 ^ 8

abbrev pub u16 : ℕ → ℕ
u16 n = n % 2 ^ 16

abbrev pub u64 : ℕ → ℕ
u64 n = n % 2 ^ 64

abbrev pub IsByte : ℕ → Type 0
IsByte b = b < 256

abbrev pub AreBytes : List ℕ → Type 0
AreBytes bytes = All IsByte bytes

-- `bytes[i]`; the callers read in range only.
abbrev pub byte_at : List ℕ → ℕ → ℕ
byte_at bytes i = get_or bytes i 0

-- Two functions agree at every number below `n`, tried from 0 on.
unfoldable pub same_below : ℕ → (ℕ → ℕ) → (ℕ → ℕ) → Bool
same_below zero f g = true
same_below (suc n) f g = same_below n f g && f n == g n

pub agree_below : (n : ℕ) (f g : ℕ → ℕ) (x : ℕ) → same_below n f g ≡ true → x < n → f x ≡ g x
unfolding same_below
agree_below zero f g x tried h = absurd (omega arith)
agree_below (suc n) f g x tried h = ground (arith, agree_below n f g x)
