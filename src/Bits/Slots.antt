-- ===== src/Bits/Slots.antt =====
-- The bytes of a 32-bit word, each replaced on its own.
use tipcie.Prelude.{ℕ, ◌*◌, ◌^◌, ◌<◌, ◌==◌, if◌then◌else◌, ◌≡◌, each_case, arith}
use tipcie.Bits.Fields.{field}
use tipcie.Bits.Insert.{put_field}

module _ (p v : ℕ) (hp : p < 2 ^ 8) (hv : v < 2 ^ 32) where
  IsSlot : (a b : ℕ) → Type 0
  IsSlot a b = field (8 * a) 8 (put_field (8 * b) 8 p v) ≡ (if a == b then p else field (8 * a) 8 v)

  pub put_field-small : (b : ℕ) → b < 4 → put_field (8 * b) 8 p v < 2 ^ 32
  put_field-small =
      each_case (λ b. put_field (8 * b) 8 p v < 2 ^ 32) 4
        (omega arith, (omega arith, (omega arith, (omega arith, tt))))

  pub field-put_field :
      (a : ℕ)
      → a < 4
      → (b : ℕ) → b < 4
      → field (8 * a) 8 (put_field (8 * b) 8 p v) ≡ (if a == b then p else field (8 * a) 8 v)
  unfolding IsSlot
  field-put_field =
      each_case (λ a. (b : ℕ) → b < 4 → IsSlot a b) 4
        (
          each_case (IsSlot 0) 4 (omega arith, (omega arith, (omega arith, (omega arith, tt)))),
          (
            each_case (IsSlot 1) 4 (omega arith, (omega arith, (omega arith, (omega arith, tt)))),
            (
              each_case (IsSlot 2) 4 (omega arith, (omega arith, (omega arith, (omega arith, tt)))),
              (
                each_case (IsSlot 3) 4
                    (omega arith, (omega arith, (omega arith, (omega arith, tt)))),
                tt,
              ),
            ),
          ),
        )
