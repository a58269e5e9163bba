-- ===== src/Bits/Insert.antt =====
-- Replacing a field of a word, and the ways in which the C code writes that.
use tipcie.Prelude.{ℕ, ◌+◌, ◌-◌, ◌*◌, ◌/◌, ◌%◌, ◌^◌, ◌<◌, bit_and, bit_or, ◌≡◌, ap, ◌∙◌, arith}
use tipcie.Bits.Step.{or_comm}
use tipcie.Bits.Fields.{
  field, mask, not32, or-mask, and-not_mask, or-gap, mod-two-pow-lt, split-two-pow,
}

-- The word `v` with `p` in the field of width `k` at shift `s`.
abbrev pub put_field : (s k p v : ℕ) → ℕ
put_field s k p v = v / 2 ^ s / 2 ^ k * 2 ^ k * 2 ^ s + p * 2 ^ s + v % 2 ^ s

-- The word is what is above the field, the field, and what is below it.
three_parts : (s k v : ℕ) → put_field s k (field s k v) v ≡ v
three_parts s k v =
    omega (arith, split-two-pow s v, ap (λ (t : ℕ). t * 2 ^ s) (split-two-pow k (v / 2 ^ s)))

pub or-mask-put_field : (s k v : ℕ) → bit_or v (mask s k) ≡ put_field s k (2 ^ k - 1) v
or-mask-put_field s k v = omega (arith, or-mask s k v, three_parts s k v)

module _ (s k v : ℕ) (h : v < 2 ^ 32) (hm : mask s k < 2 ^ 32) where
  pub and-not32-put_field : bit_and v (not32 (mask s k)) ≡ put_field s k 0 v
  and-not32-put_field = omega (arith, and-not_mask s k v h hm, three_parts s k v)

  pub insert-put_field :
      (p : ℕ) → p < 2 ^ k → bit_or (bit_and v (not32 (mask s k))) (p * 2 ^ s) ≡ put_field s k p v
  insert-put_field p hp =
      let low = mod-two-pow-lt s v in
      let gap = or-gap s k (v / 2 ^ s / 2 ^ k) (v % 2 ^ s) p low hp in
      let cleared : bit_and v (not32 (mask s k)) ≡ v / 2 ^ s / 2 ^ k * 2 ^ k * 2 ^ s + v % 2 ^ s =
        omega (arith, and-not32-put_field) in
      rw cleared (omega (arith, gap))

  -- The same with the sides of `|` swapped.
  pub insert_left-put_field :
      (p : ℕ) → p < 2 ^ k → bit_or (p * 2 ^ s) (bit_and v (not32 (mask s k))) ≡ put_field s k p v
  insert_left-put_field p hp =
      or_comm (p * 2 ^ s) (bit_and v (not32 (mask s k))) ∙ insert-put_field p hp
