-- ===== src/Pulser/Prescale.antt =====
-- The prescales of the six inputs share a register, of which each call changes one field.
use native.Mathlib.Nat.{mul-div_cancel}
use tipcie.Prelude.{
  each_case, ltb, false, ℕ, suc, ◌/◌, bit_or, ◌-◌, ◌*◌, ◌^◌, ◌<◌, ◌≤◌, true, some, pos, ok, ◌≡◌,
  refl, ◌∙◌, ◌∷◌, ◌%◌, bit_and, arith,
}
use tipcie.Bits.Fields.{field, mask, not32, and-field, two-pow-pos}
use tipcie.Bits.Insert.{put_field, insert-put_field}
use tipcie.Machine.{Device, World, read, write, lock, unlock}
use tipcie.Machine.Reg
use tipcie.Machine.Registers.{stored, Remembers}
use tipcie.Pulser.{tip_set_input_prescale, tip_get_input_prescale}

-- What the functions compute on the register: a field is replaced and found again.
IsSlot : (p v i : ℕ) → Type 0
IsSlot p v i =
    let s = 4 * (i - 1) in
    (bit_or (bit_and v (not32 (0xf * 2 ^ s))) (p * 2 ^ s) ≡ put_field s 4 p v)
    × (put_field s 4 p v < 2 ^ 32)
    × (bit_and (put_field s 4 p v) (0xf * 2 ^ s) / 2 ^ s ≡ p)

module _ (p v : ℕ) (fits : p < 2 ^ 4) (h : v < 2 ^ 32) where
  at_shift :
      (s : ℕ)
      → mask s 4 < 2 ^ 32
      → put_field s 4 p v < 2 ^ 32
      → field s 4 (put_field s 4 p v) ≡ p
      → (bit_or (bit_and v (not32 (0xf * 2 ^ s))) (p * 2 ^ s) ≡ put_field s 4 p v)
        × (put_field s 4 p v < 2 ^ 32)
        × (bit_and (put_field s 4 p v) (0xf * 2 ^ s) / 2 ^ s ≡ p)
  at_shift s small bound again = (
    insert-put_field s 4 v h small p fits,
    bound,
    rw (and-field s 4 (put_field s 4 p v), again) (mul-div_cancel p (two-pow-pos s)),
  )

  slot : (k : ℕ) → k < 6 → IsSlot p v (suc k)
  unfolding IsSlot
  slot =
      each_case (λ k. IsSlot p v (suc k)) 6
        (
          at_shift 0 (omega arith) (omega arith) (omega arith),
          (
            at_shift 4 (omega arith) (omega arith) (omega arith),
            (
              at_shift 8 (omega arith) (omega arith) (omega arith),
              (
                at_shift 12 (omega arith) (omega arith) (omega arith),
                (
                  at_shift 16 (omega arith) (omega arith) (omega arith),
                  (at_shift 20 (omega arith) (omega arith) (omega arith), tt),
                ),
              ),
            ),
          ),
        )

module _ (dev : Device) (start : ℕ) (mem : Remembers dev Reg.input_prescale start) where
  abbrev after : (i p : ℕ) → World → World
  after i p w =
      let v = stored Reg.input_prescale start w.log in
      record w {
        log =
            unlock
            ∷ write Reg.input_prescale (put_field (4 * (i - 1)) 4 p v)
            ∷ read Reg.input_prescale v
            ∷ lock
            ∷ w.log;
      }

  module _ (i p : ℕ) (w : World) (opened : w.lib.opened ≡ true) (lo : 1 ≤ i) (hi : i ≤ 6)
      (fits : p < 2 ^ 4) where
    holds : IsSlot p (stored Reg.input_prescale start w.log) i
    holds =
        let e : i ≡ suc (i - 1) = omega arith in
        rw e (slot p _ fits (omega (arith, mem w.log)) (i - 1) (omega arith))

    set_accesses : tip_set_input_prescale dev (pos i) (pos p) w ≡ (ok, after i p w)
    unfolding tip_set_input_prescale IsSlot
    set_accesses =
        let input : i % 2 ^ 32 ≡ i = omega arith in
        let value : p % 2 ^ 32 ≡ p = omega arith in
        let small : ltb 15 p ≡ false = ground arith in
        let low : ltb 0 i ≡ true = ground arith in
        let high : ltb 6 i ≡ false = ground arith in
        rw (opened, small, low, high, mem (lock ∷ w.log), input, value, holds.0)
          (ground (arith, holds.1))

    after_register :
        stored Reg.input_prescale start (after i p w).log
        ≡ put_field (4 * (i - 1)) 4 p (stored Reg.input_prescale start w.log)
    unfolding IsSlot
    after_register = omega (arith, holds.1)

    get_value : (tip_get_input_prescale dev (pos i) (after i p w)).0 ≡ some (pos p)
    unfolding tip_get_input_prescale IsSlot
    get_value =
        let input : i % 2 ^ 32 ≡ i = omega arith in
        let low : ltb 0 i ≡ true = ground arith in
        let high : ltb 7 i ≡ false = ground arith in
        rw (opened, low, high, mem (lock ∷ (after i p w).log) ∙ after_register, input, holds.2)
          (ground arith)

    -- On an open library whose card remembers the register of the input prescales, setting the
    -- prescale of input 1 to 6 to a value below 16 returns OK,
    -- replaces the four bits of that input in the register, keeps its other bits and the library's
    -- variables, and reading the prescale of the input gives the value back.
    pub tip_set_input_prescale-get :
        let r = tip_set_input_prescale dev (pos i) (pos p) w in
        (r.0 ≡ ok)
        × (r.1.lib ≡ w.lib)
        × (stored Reg.input_prescale start r.1.log
            ≡ put_field (4 * (i - 1)) 4 p (stored Reg.input_prescale start w.log))
        × ((tip_get_input_prescale dev (pos i) r.1).0 ≡ some (pos p))
    tip_set_input_prescale-get = rw set_accesses (refl, refl, after_register, get_value)
