-- ===== src/Readout/Closed.antt =====
-- While the library is not open, the calls on the readout do not touch the card.
use tipcie.Prelude.{
  error, not, true, Bool-cases, inl, inr, ◌*◌, ◌+◌, ℤ, Option, false, none, some, pos, ◌≡◌, refl,
  arith,
}
use tipcie.Machine.{Device, World}
use tipcie.Block.Closed.{tip_get_current_block_level_untouched}
use tipcie.Machine.Touch.{touches}
use tipcie.Format.{Buffer}
use tipcie.Readout.{
  tip_fake_trigger_bank_on_error, tip_read_block, tip_generate_trigger_bank, tip_read_trigger_block,
  fall_back, find_bank,
}

module _ (dev : Device) where
  pub tip_fake_trigger_bank_on_error_untouched :
      (a : ℤ) (w : World)
      → w.lib.opened ≡ false
      → touches (tip_fake_trigger_bank_on_error a w).1.log ≡ touches w.log
  unfolding tip_fake_trigger_bank_on_error
  tip_fake_trigger_bank_on_error_untouched a w closed = refl

  pub tip_read_block_untouched :
      (a : Option Buffer) (b : ℤ) (c : ℤ) (w : World)
      → w.lib.opened ≡ false
      → touches (tip_read_block dev a b c w).1.log ≡ touches w.log
  unfolding tip_read_block
  tip_read_block_untouched a b c w closed = ground arith

  pub tip_generate_trigger_bank_untouched :
      (a : Buffer) (w : World)
      → w.lib.opened ≡ false
      → touches (tip_generate_trigger_bank dev a w).1.log ≡ touches w.log
  unfolding tip_generate_trigger_bank
  tip_generate_trigger_bank_untouched a w closed =
      tip_get_current_block_level_untouched dev w closed

  read_block_closed :
      (buf : Buffer) (nwrds rflag : ℤ) (w : World)
      → w.lib.opened ≡ false
      → tip_read_block dev (some buf) nwrds rflag w ≡ ((error, some buf), w)
  unfolding tip_read_block
  read_block_closed buf nwrds rflag w closed =
      let shut : not w.lib.opened ≡ true = ground arith in rw shut refl

  fall_back_untouched :
      (result : ℤ) (buf : Buffer) (w : World)
      → w.lib.opened ≡ false
      → touches (fall_back dev result (some buf) w).1.log ≡ touches w.log
  unfolding fall_back
  fall_back_untouched result buf w closed = elim (Bool-cases w.lib.fake_trigger_bank) [
    | inl faked ↦ rw faked (
        tip_generate_trigger_bank_untouched buf
          (record w { lib = record (w.lib) { fake_trigger_bank = true } }) closed)
    | inr plain ↦ rw plain refl
  ]

  pub tip_read_trigger_block_untouched :
      (a : Option Buffer) (w : World)
      → w.lib.opened ≡ false
      → touches (tip_read_trigger_block dev a w).1.log ≡ touches w.log
  unfolding tip_read_trigger_block find_bank
  tip_read_trigger_block_untouched none w closed = refl
  tip_read_trigger_block_untouched (some buf) w closed =
      rw (read_block_closed buf (pos (5 * w.lib.block_level + 8)) (pos 0) w closed)
        (fall_back_untouched error buf w closed)
