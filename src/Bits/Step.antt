-- ===== src/Bits/Step.antt =====
-- One binary digit at a time: `&` and `|` from the recursion that the native operations stand for.
use Prim.Native.Nat.{min, max, digits, bitwise, bit_and-bitwise, bit_or-bitwise}
use native.Mathlib.Nat.{zero-add}
use tipcie.Prelude.{
  arith, ap, refl, ◌∙◌, ◌≡◌, bit_or, bit_and, ℕ, zero, suc, ◌≤◌, ◌+◌, ◌-◌, ◌*◌, ◌/◌, ◌%◌,
}

-- `digits` stops at 0 of its first word, so that rounds beyond that word's size change nothing.
module _ (edge : ℕ → ℕ) (op : ℕ → ℕ → ℕ) where
  digits-suc :
      (rounds x y : ℕ) → x ≤ rounds → digits edge op (suc rounds) x y ≡ digits edge op rounds x y
  digits-suc zero zero y le = refl
  digits-suc (suc rounds) zero y le = refl
  digits-suc zero (suc x) y le = absurd (omega arith)
  digits-suc (suc rounds) (suc x) y le = rw (digits-suc rounds (suc x / 2) (y / 2) (omega arith))

  digits-add :
      (k rounds x y : ℕ) → x ≤ rounds → digits edge op (k + rounds) x y ≡ digits edge op rounds x y
  digits-add zero rounds x y le = rw zero-add
  digits-add (suc k) rounds x y le =
      let e : suc k + rounds ≡ suc (k + rounds) = omega arith in
      rw e (digits-suc (k + rounds) x y (omega arith) ∙ digits-add k rounds x y le)

  bitwise-lowest :
      (x y : ℕ)
      → bitwise edge op (suc x) y ≡ bitwise edge op (suc x / 2) (y / 2) * 2 + op (suc x % 2) (y % 2)
  bitwise-lowest x y =
      let half = suc x / 2 in
      let e : x ≡ x - half + half = omega arith in
      let enough : digits edge op x half (y / 2) ≡ digits edge op half half (y / 2) =
        ap (λ n. digits edge op n half (y / 2)) e
        ∙ digits-add (x - half) half half (y / 2) (omega arith) in
      omega (arith, enough)

pub bit_or_step : (x y : ℕ) → bit_or x y ≡ bit_or (x / 2) (y / 2) * 2 + max (x % 2) (y % 2)
bit_or_step x y =
    simp bit_or-bitwise
      (elim x
        as (λ n.
          bitwise (λ w. w) max n y
          ≡ bitwise (λ w. w) max (n / 2) (y / 2) * 2 + max (n % 2) (y % 2)) [
            | zero ↦ omega arith
            | suc x ↦ bitwise-lowest (λ w. w) max x y
          ])

pub bit_and_step : (x y : ℕ) → bit_and x y ≡ bit_and (x / 2) (y / 2) * 2 + min (x % 2) (y % 2)
bit_and_step x y =
    simp bit_and-bitwise
      (elim x
        as (λ n.
          bitwise (λ w. 0) min n y
          ≡ bitwise (λ w. 0) min (n / 2) (y / 2) * 2 + min (n % 2) (y % 2)) [
            | zero ↦ omega arith
            | suc x ↦ bitwise-lowest (λ w. 0) min x y
          ])

-- Induction on a bound of `a`, since both go from `a / 2` to `a`.
below_and-zero : (n a : ℕ) → a ≤ n → bit_and a 0 ≡ 0
below_and-zero n zero h = refl
below_and-zero zero (suc a) h = absurd (omega arith)
below_and-zero (suc n) (suc a) h =
    omega (arith, bit_and_step (suc a) 0, below_and-zero n (suc a / 2) (omega arith))

pub and-zero : (a : ℕ) → bit_and a 0 ≡ 0
and-zero a = below_and-zero a a (omega arith)

below_or-and : (n a b : ℕ) → a ≤ n → bit_or a b + bit_and a b ≡ a + b
below_or-and n zero b h = omega (arith, bit_or-bitwise 0 b, bit_and-bitwise 0 b)
below_or-and zero (suc a) b h = absurd (omega arith)
below_or-and (suc n) (suc a) b h = omega (
  arith,
  bit_or_step (suc a) b,
  bit_and_step (suc a) b,
  below_or-and n (suc a / 2) (b / 2) (omega arith),
)

-- `a | b` counts the common bits once.
pub or-and : (a b : ℕ) → bit_or a b + bit_and a b ≡ a + b
or-and a b = below_or-and a a b (omega arith)

below_and-le : (n a b : ℕ) → a ≤ n → bit_and a b ≤ a
below_and-le n zero b h = omega (arith, bit_and-bitwise 0 b)
below_and-le zero (suc a) b h = absurd (omega arith)
below_and-le (suc n) (suc a) b h =
    omega (arith, bit_and_step (suc a) b, below_and-le n (suc a / 2) (b / 2) (omega arith))

pub and-le : (a b : ℕ) → bit_and a b ≤ a
and-le a b = below_and-le a a b (omega arith)

below_and_comm : (n a b : ℕ) → a ≤ n → bit_and a b ≡ bit_and b a
below_and_comm n zero b h = omega (arith, bit_and-bitwise 0 b, and-zero b)
below_and_comm zero (suc a) b h = absurd (omega arith)
below_and_comm (suc n) (suc a) b h = omega (
  arith,
  bit_and_step (suc a) b,
  bit_and_step b (suc a),
  below_and_comm n (suc a / 2) (b / 2) (omega arith),
)

pub and_comm : (a b : ℕ) → bit_and a b ≡ bit_and b a
and_comm a b = below_and_comm a a b (omega arith)

pub or_comm : (a b : ℕ) → bit_or a b ≡ bit_or b a
or_comm a b = omega (arith, or-and a b, or-and b a, and_comm a b)
