-- ===== src/Pulser/Soft.antt =====
-- The register that tipSoftTrig writes.
use tipcie.Prelude.{
  Bool, ℕ, ◌+◌, ◌*◌, ◌%◌, ◌^◌, ◌≤◌, Bool-cases, inl, inr, true, false, not, ◌||◌, ltb, pos, ◌==◌,
  ok, ◌∷◌, ◌≡◌, refl, bit_or, arith, if◌then◌else◌,
}
use tipcie.Bits.Fields.{or-low}
use tipcie.Machine.{World, lock, unlock, write}
use tipcie.Machine.Reg
use tipcie.Pulser.{tip_soft_trig}

-- On an open library, tip_soft_trig for trigger 1 or 2, with at most 0xffff events, a period
-- increment of at most 0x7fff and range 0 or 1, returns OK, keeps the library's variables and writes
-- one register, the pulser of the trigger, with the range in bit 31, the period in bits 16 to 30
-- and the number of events below them.
pub tip_soft_trig-fields :
    (second : Bool) (n period range : ℕ) (w : World)
    → w.lib.opened ≡ true
    → n ≤ 0xffff
    → period ≤ 0x7fff
    → range ≤ 1
    → let reg = if second then Reg.fixed_pulser2 else Reg.fixed_pulser1 in
      tip_soft_trig (if second then pos 2 else pos 1) n period (pos range) w ≡ (
        ok,
        record w { log = unlock ∷ write reg (range * 2 ^ 31 + period * 2 ^ 16 + n) ∷ lock ∷ w.log },
      )
unfolding tip_soft_trig
tip_soft_trig-fields second n period range w opened fits_n fits_period fits_range =
    let upper : bit_or (range * 2 ^ 31) (period * 2 ^ 16) ≡ (range * 2 ^ 15 + period) * 2 ^ 16 =
      omega (arith, or-low 31 range (period * 2 ^ 16) (omega arith)) in
    let all = or-low 16 (range * 2 ^ 15 + period) n (omega arith) in
    let value : bit_or (bit_or (range * 2 ^ 31) (period * 2 ^ 16)) n
        ≡ range * 2 ^ 31 + period * 2 ^ 16 + n =
      rw upper (omega (arith, all)) in
    let range_shift : range % 2 ^ 32 * 2 ^ 31 % 2 ^ 32 ≡ range * 2 ^ 31 = omega arith in
    let period_shift : period * 2 ^ 16 % 2 ^ 32 ≡ period * 2 ^ 16 = omega arith in
    let word : (range * 2 ^ 31 + period * 2 ^ 16 + n) % 2 ^ 32
        ≡ range * 2 ^ 31 + period * 2 ^ 16 + n =
      omega arith in
    let few : ltb 0xffff n ≡ false = ground arith in
    let short : ltb 0x7fff period ≡ false = ground arith in
    let known : not (range == 0 || range == 1) ≡ false = ground arith in
    elim (Bool-cases second) [
      | inl two ↦ rw (opened, two, few, short, known, range_shift, period_shift, value, word) refl
      | inr one ↦ rw (opened, one, few, short, known, range_shift, period_shift, value, word) refl
    ]
