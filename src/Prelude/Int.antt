-- ===== src/Prelude/Int.antt =====
-- The `int` of C as an integer: its conversions from and to `unsigned int`, and its order.
use Prim.Native.Nat.{ℕ, zero, suc, ◌-◌, ◌%◌, ◌^◌, ◌<◌}
use mathlib.Core.Path.{◌≡◌}
use mathlib.Core.Bool.{Bool, true, false}
use native.Mathlib.Omega.{arith}
use tipcie.Prelude.Tests.{ltb, ◌==◌, if◌then◌else◌}

-- `negsuc n` is -(n + 1).
pub data ℤ : Type 0 where
  pos : ℕ → ℤ
  negsuc : ℕ → ℤ

-- The macros OK and ERROR.
abbrev pub ok : ℤ
ok = pos 0

abbrev pub error : ℤ
error = negsuc 0

-- (unsigned int) x
abbrev pub to_u32 : ℤ → ℕ
to_u32 (pos n) = n % 2 ^ 32
to_u32 (negsuc n) = 2 ^ 32 - 1 - n % 2 ^ 32

-- (int) x, for an unsigned x
abbrev pub to_int : ℕ → ℤ
to_int n = if ltb n (2 ^ 31) then pos n else negsuc (2 ^ 32 - 1 - n)

-- x > n and x < 0
abbrev pub above : ℤ → ℕ → Bool
above (pos m) n = ltb n m
above (negsuc m) n = false

abbrev pub negative : ℤ → Bool
negative (pos m) = false
negative (negsuc m) = true

-- x == n
abbrev pub equals : ℤ → ℕ → Bool
equals (pos m) n = m == n
equals (negsuc m) n = false

-- An `int` as a condition.
abbrev pub truthy : ℤ → Bool
truthy (pos zero) = false
truthy (pos (suc n)) = true
truthy (negsuc n) = true

pub to_u32-lt : (x : ℤ) → to_u32 x < 2 ^ 32
to_u32-lt (pos n) = omega arith
to_u32-lt (negsuc n) = omega arith

pub to_u32-to_int : (n : ℕ) → n < 2 ^ 32 → to_u32 (to_int n) ≡ n
to_u32-to_int n h = ground arith
