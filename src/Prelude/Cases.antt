-- ===== src/Prelude/Cases.antt =====
-- A claim for all numbers below a bound, case by case.
use Prim.Native.Nat.{ℕ, zero, suc, ◌<◌}
use mathlib.Core.Path.{◌≡◌}
use mathlib.Core.Logic.{inl, inr}
use mathlib.Core.Bool.{Bool, true, ◌&&◌}
use native.Mathlib.Omega.{arith}
use tipcie.Prelude.Tests.{ltb, Bool-cases}

abbrev pub Each {ℓ} : (ℕ → Type ℓ) → ℕ → Type ℓ
Each P zero = Unit
Each P (suc n) = P 0 × Each (λ k. P (suc k)) n

pub each_case {ℓ} : (P : ℕ → Type ℓ) (n : ℕ) → Each P n → (k : ℕ) → k < n → P k
each_case P zero all k h = absurd (omega arith)
each_case P (suc n) all zero h = all.0
each_case P (suc n) all (suc k) h = each_case (λ j. P (suc j)) n all.1 k (omega arith)

-- A test that all numbers below a bound pass.
abbrev pub all_below : (ℕ → Bool) → ℕ → Bool
all_below f zero = true
all_below f (suc n) = f n && all_below f n

pub all_below-lt : (f : ℕ → Bool) (n : ℕ) → all_below f n ≡ true → (k : ℕ) → k < n → f k ≡ true
all_below-lt f zero all k h = absurd (omega arith)
all_below-lt f (suc n) all k h = elim (Bool-cases (ltb k n)) [
  | inl below ↦ all_below-lt f n (ground arith) k (ground arith)
  | inr top ↦ let e : k ≡ n = ground arith in rw e (ground arith)
]
