-- ===== src/Crate/Registers.antt =====
-- tipSetCrateID changes the lowest byte of the board's identity, and nothing else.
use tipcie.Prelude.{
  ℕ, ltb, Bool-cases, inl, inr, true, ok, error, ◌∷◌, ◌≡◌, refl, arith, if◌then◌else◌,
}
use tipcie.Bits.Insert.{put_field, insert-put_field}
use tipcie.Machine.{Device, World, lock}
use tipcie.Machine.Reg
use tipcie.Machine.Registers.{stored, Remembers}
use tipcie.Crate.{tip_set_crate_id}

module _ (dev : Device) (start : ℕ) (mem : Remembers dev Reg.board_id start) where
  -- On an open library whose card remembers the board's identity register, tip_set_crate_id with an
  -- identity of at most 0xff returns OK and puts it into the lowest byte of the register, whose other
  -- bits are kept; with a larger one it returns ERROR and makes no access. The library's variables
  -- are kept in both cases.
  pub tip_set_crate_id-put_field :
      (crate_id : ℕ) (w : World)
      → w.lib.opened ≡ true
      → let r = tip_set_crate_id dev crate_id w in
        let v = stored Reg.board_id start w.log in
        let over = ltb 0xff crate_id in
        (r.0 ≡ (if over then error else ok))
        × (r.1.lib ≡ w.lib)
        × (stored Reg.board_id start r.1.log ≡ (if over then v else put_field 0 8 crate_id v))
        × ((if over then r.1.log else w.log) ≡ w.log)
  unfolding tip_set_crate_id
  tip_set_crate_id-put_field crate_id w opened = elim (Bool-cases (ltb 0xff crate_id)) [
    | inl over ↦ rw (opened, over) (refl, refl, refl, refl)
    | inr fits ↦
        let v = stored Reg.board_id start w.log in
        let old = mem (lock ∷ w.log) in
        let set =
          insert-put_field 0 8 v (omega (arith, old)) (omega arith) crate_id (ground arith) in
        rw (opened, fits, old) (ground (arith, set, old, fits))
  ]
