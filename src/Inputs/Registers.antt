-- ===== src/Inputs/Registers.antt =====
-- What the event format and the trigger supervisor's inputs come to in their registers.
use tipcie.Prelude.{
  ℕ, each_case, ltb, leb, Bool-cases, inl, inr, true, pos, ok, error, ◌∷◌, ◌^◌, ◌<◌, ◌*◌, ◌≡◌, refl,
  arith, bit_and, bit_or, if◌then◌else◌,
}
use tipcie.Bits.Fields.{not32}
use tipcie.Bits.Insert.{put_field, insert-put_field}
use tipcie.Machine.{Device, World, lock}
use tipcie.Machine.Reg
use tipcie.Machine.Registers.{stored, Remembers}
use tipcie.Inputs.{format_bits, tip_set_event_format}

module _ (dev : Device) (start : ℕ) (mem : Remembers dev Reg.data_format start) where
  -- What one format does to the register.
  IsFormat : World → ℕ → Type 0
  IsFormat w format =
      let r = tip_set_event_format dev (pos format) w in
      (r.0 ≡ ok)
      × (stored Reg.data_format start r.1.log
          ≡ put_field 1 2 format (stored Reg.data_format start w.log))

  IsFormat-fits : (w : World) → w.lib.opened ≡ true → (format : ℕ) → format < 4 → IsFormat w format
  unfolding IsFormat tip_set_event_format format_bits
  IsFormat-fits w opened =
      let v = stored Reg.data_format start w.log in
      let old = mem (lock ∷ w.log) in
      let set : (p : ℕ)
          → p < 4
          → bit_or (bit_and v (not32 (3 * 2 ^ 1))) (p * 2 ^ 1) ≡ put_field 1 2 p v =
        λ p fits. insert-put_field 1 2 v (omega (arith, old)) (omega arith) p fits in
      each_case (IsFormat w) 4 (
        rw (opened, old, set 0 (omega arith)) (refl, omega (arith, old)),
        (
          rw (opened, old, set 1 (omega arith)) (refl, omega (arith, old)),
          (
            rw (opened, old, set 2 (omega arith)) (refl, omega (arith, old)),
            (rw (opened, old, set 3 (omega arith)) (refl, omega (arith, old)), tt),
          ),
        ),
      )

  -- On an open library whose card remembers the data format register, tip_set_event_format with a
  -- format of 0 to 3 returns OK and puts the format into bits 1 (timing word) and 2 (higher bits
  -- word) of the register, whose other bits are kept. A larger format is an ERROR, and the register
  -- is kept.
  pub tip_set_event_format-put_field :
      (format : ℕ) (w : World)
      → w.lib.opened ≡ true
      → let r = tip_set_event_format dev (pos format) w in
        let v = stored Reg.data_format start w.log in
        let fine = leb format 3 in
        (r.0 ≡ (if fine then ok else error))
        × (stored Reg.data_format start r.1.log ≡ (if fine then put_field 1 2 format v else v))
  unfolding tip_set_event_format IsFormat
  tip_set_event_format-put_field format w opened = elim (Bool-cases (leb format 3)) [
    | inl fine ↦ rw fine (IsFormat-fits w opened format (ground arith))
    | inr wrong ↦
        let over : ltb 3 format ≡ true = ground arith in rw (opened, over, wrong) (refl, refl)
  ]
