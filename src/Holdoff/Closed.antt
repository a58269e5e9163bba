-- ===== src/Holdoff/Closed.antt =====
-- While the library is not open, the calls on the trigger rules do not touch the card.
use tipcie.Prelude.{ℕ, ℤ, false, ◌≡◌, refl}
use tipcie.Machine.{Device, World}
use tipcie.Machine.Touch.{touches}
use tipcie.Holdoff.{
  tip_set_trigger_holdoff, tip_get_trigger_holdoff, tip_set_trigger_holdoff_min,
  tip_get_trigger_holdoff_min,
}

module _ (dev : Device) where
  pub tip_set_trigger_holdoff_untouched :
      (a : ℤ) (b : ℕ) (c : ℤ) (w : World)
      → w.lib.opened ≡ false
      → touches (tip_set_trigger_holdoff dev a b c w).1.log ≡ touches w.log
  unfolding tip_set_trigger_holdoff
  tip_set_trigger_holdoff_untouched a b c w closed = rw closed refl

  pub tip_get_trigger_holdoff_untouched :
      (a : ℤ) (w : World)
      → w.lib.opened ≡ false
      → touches (tip_get_trigger_holdoff dev a w).1.log ≡ touches w.log
  unfolding tip_get_trigger_holdoff
  tip_get_trigger_holdoff_untouched a w closed = rw closed refl

  pub tip_set_trigger_holdoff_min_untouched :
      (a : ℤ) (b : ℕ) (w : World)
      → w.lib.opened ≡ false
      → touches (tip_set_trigger_holdoff_min dev a b w).1.log ≡ touches w.log
  unfolding tip_set_trigger_holdoff_min
  tip_set_trigger_holdoff_min_untouched a b w closed = rw closed refl

  pub tip_get_trigger_holdoff_min_untouched :
      (a : ℤ) (b : ℤ) (w : World)
      → w.lib.opened ≡ false
      → touches (tip_get_trigger_holdoff_min dev a b w).1.log ≡ touches w.log
  unfolding tip_get_trigger_holdoff_min
  tip_get_trigger_holdoff_min_untouched a b w closed = rw closed refl
