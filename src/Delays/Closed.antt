-- ===== src/Delays/Closed.antt =====
-- While the library is not open, the calls on the delays of the TS inputs do not touch the card.
use tipcie.Prelude.{ℤ, false, ◌≡◌, refl}
use tipcie.Machine.{Device, World}
use tipcie.Machine.Touch.{touches}
use tipcie.Delays.{tip_set_tsinput_delay, tip_get_tsinput_delay}

module _ (dev : Device) where
  pub tip_set_tsinput_delay_untouched :
      (a : ℤ) (b : ℤ) (w : World)
      → w.lib.opened ≡ false
      → touches (tip_set_tsinput_delay dev a b w).1.log ≡ touches w.log
  unfolding tip_set_tsinput_delay
  tip_set_tsinput_delay_untouched a b w closed = rw closed refl

  pub tip_get_tsinput_delay_untouched :
      (a : ℤ) (w : World)
      → w.lib.opened ≡ false
      → touches (tip_get_tsinput_delay dev a w).1.log ≡ touches w.log
  unfolding tip_get_tsinput_delay
  tip_get_tsinput_delay_untouched a w closed = rw closed refl
