-- ===== src/Window/Closed.antt =====
-- While the library is not open, the calls on the trigger windows do not touch the card.
use tipcie.Prelude.{ℤ, false, ◌≡◌, refl}
use tipcie.Machine.{Device, World}
use tipcie.Machine.Touch.{touches}
use tipcie.Window.{
  tip_set_trigger_window, tip_get_trigger_window, tip_set_trigger_inhibit_window,
  tip_get_trigger_inhibit_window, tip_set_trig21_delay, tip_get_trig21_delay,
  tip_set_trigger_latch_on_level, tip_get_trigger_latch_on_level,
}

module _ (dev : Device) where
  pub tip_set_trigger_window_untouched :
      (a : ℤ) (w : World)
      → w.lib.opened ≡ false
      → touches (tip_set_trigger_window dev a w).1.log ≡ touches w.log
  unfolding tip_set_trigger_window
  tip_set_trigger_window_untouched a w closed = rw closed refl

  pub tip_get_trigger_window_untouched :
      (w : World)
      → w.lib.opened ≡ false
      → touches (tip_get_trigger_window dev w).1.log ≡ touches w.log
  unfolding tip_get_trigger_window
  tip_get_trigger_window_untouched w closed = rw closed refl

  pub tip_set_trigger_inhibit_window_untouched :
      (a : ℤ) (w : World)
      → w.lib.opened ≡ false
      → touches (tip_set_trigger_inhibit_window dev a w).1.log ≡ touches w.log
  unfolding tip_set_trigger_inhibit_window
  tip_set_trigger_inhibit_window_untouched a w closed = rw closed refl

  pub tip_get_trigger_inhibit_window_untouched :
      (w : World)
      → w.lib.opened ≡ false
      → touches (tip_get_trigger_inhibit_window dev w).1.log ≡ touches w.log
  unfolding tip_get_trigger_inhibit_window
  tip_get_trigger_inhibit_window_untouched w closed = rw closed refl

  pub tip_set_trig21_delay_untouched :
      (a : ℤ) (w : World)
      → w.lib.opened ≡ false
      → touches (tip_set_trig21_delay dev a w).1.log ≡ touches w.log
  unfolding tip_set_trig21_delay
  tip_set_trig21_delay_untouched a w closed = rw closed refl

  pub tip_get_trig21_delay_untouched :
      (w : World)
      → w.lib.opened ≡ false
      → touches (tip_get_trig21_delay dev w).1.log ≡ touches w.log
  unfolding tip_get_trig21_delay
  tip_get_trig21_delay_untouched w closed = rw closed refl

  pub tip_set_trigger_latch_on_level_untouched :
      (a : ℤ) (w : World)
      → w.lib.opened ≡ false
      → touches (tip_set_trigger_latch_on_level dev a w).1.log ≡ touches w.log
  unfolding tip_set_trigger_latch_on_level
  tip_set_trigger_latch_on_level_untouched a w closed = rw closed refl

  pub tip_get_trigger_latch_on_level_untouched :
      (w : World)
      → w.lib.opened ≡ false
      → touches (tip_get_trigger_latch_on_level dev w).1.log ≡ touches w.log
  unfolding tip_get_trigger_latch_on_level
  tip_get_trigger_latch_on_level_untouched w closed = rw closed refl
