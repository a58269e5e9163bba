-- ===== src/Init/Board.antt =====
-- tipInit touches no board that is not a TI.
use tipcie.Prelude.{
  ℕ, ◌%◌, ◌/◌, ◌^◌, ◌==◌, Bool-cases, inl, inr, true, false, not, ◌||◌, error, ◌∷◌, ◌≡◌, refl,
  bit_and, arith,
}
use tipcie.Bits.Fields.{field, and-field}
use tipcie.Machine.{Device, World, read}
use tipcie.Machine.Reg
use tipcie.Setup.{Os}
use tipcie.Init.{check_board, forget, tip_init}

module _ (dev : Device) (os : Os) where
  -- If the library is open and the identity register of the board reads as all ones, or its upper
  -- byte is not that of a TI (0x71), then tip_init returns ERROR for every mode and every
  -- flag, the library counts as closed after it, and that read is the only access to the card.
  pub tip_init-no_board :
      (mode i_flag : ℕ) (w : World)
      → w.lib.opened ≡ true
      → let v = dev.answer w.log Reg.board_id % 2 ^ 32 in
        (v == 0xffff_ffff || not (field 24 8 v == 0x71)) ≡ true
        → let r = tip_init dev os mode i_flag w in
          (r.0 ≡ error) × (r.1.lib.opened ≡ false) × (r.1.log ≡ read Reg.board_id v ∷ w.log)
  unfolding tip_init check_board forget
  tip_init-no_board mode i_flag w opened no_board =
      let v = dev.answer w.log Reg.board_id % 2 ^ 32 in
      let type : (bit_and v 0xff00_0000 / 2 ^ 16 == 0x7100) ≡ (field 24 8 v == 0x71) =
        ground (arith, and-field 24 8 v) in
      elim (Bool-cases (v == 0xffff_ffff)) [
        | inl gone ↦ rw (opened, gone) (refl, refl, refl)
        | inr there ↦
            let other : (field 24 8 v == 0x71) ≡ false = ground arith in
            rw (opened, there, type, other) (refl, refl, refl)
      ]
