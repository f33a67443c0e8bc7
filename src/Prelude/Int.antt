-- ===== src/Prelude/Int.antt =====
-- Signed integers over the native numbers, and the C conversions to `int`.
use Prim.Native.Nat.{ℕ, ◌-◌, ◌%◌, ◌^◌}
use mathlib.Core.Bool.{Bool, true, false}
use mathlib.Core.Logic.{◌↔◌}
use mathlib.Core.Path.{◌≡◌}
use native.Mathlib.Omega.{arith}
use orb_weaver.Prelude.Tests.{ltb, ◌==◌, if◌then◌else◌}

-- `negsuc n` is -(n + 1).
pub data ℤ : Type 0 where
  pos : ℕ → ℤ
  negsuc : ℕ → ℤ

-- `x < 0`
abbrev pub is_negative : ℤ → Bool
is_negative (pos n) = false
is_negative (negsuc n) = true

-- The conversion of an unsigned integer to a 32-bit `int`, which keeps the low bits.
unfoldable pub to_int : ℕ → ℤ
to_int u = let w = u % 2 ^ 32 in if ltb w (2 ^ 31) then pos w else negsuc (2 ^ 32 - w - 1)

-- `a == b`
abbrev pub int_equal : ℤ → ℤ → Bool
int_equal (pos m) (pos n) = m == n
int_equal (negsuc m) (negsuc n) = m == n
int_equal _ _ = false

pub int_equal_iff : (a b : ℤ) → (int_equal a b ≡ true) ↔ (a ≡ b)
int_equal_iff (pos m) (pos n) = ground arith
int_equal_iff (negsuc m) (negsuc n) = ground arith
int_equal_iff (pos m) (negsuc n) = ground arith
int_equal_iff (negsuc m) (pos n) = ground arith
