-- ===== src/Pulser/Closed.antt =====
-- While the library is not open, the calls on the pulser, the pulses and the prescales do not touch the card.
use tipcie.Prelude.{ℕ, ℤ, false, ◌≡◌, refl}
use tipcie.Machine.{Device, World}
use tipcie.Machine.Touch.{touches}
use tipcie.Pulser.{
  tip_soft_trig, tip_set_random_trigger, tip_disable_random_trigger, tip_set_prescale,
  tip_set_prompt_trigger_width, tip_get_prescale, tip_get_prompt_trigger_width,
  tip_set_input_prescale, tip_get_input_prescale, tip_set_trigger_pulse,
}

module _ (dev : Device) where
  pub tip_soft_trig_untouched :
      (a : ℤ) (b : ℕ) (c : ℕ) (d : ℤ) (w : World)
      → w.lib.opened ≡ false
      → touches (tip_soft_trig a b c d w).1.log ≡ touches w.log
  unfolding tip_soft_trig
  tip_soft_trig_untouched a b c d w closed = rw closed refl

  pub tip_set_random_trigger_untouched :
      (a : ℤ) (b : ℤ) (w : World)
      → w.lib.opened ≡ false
      → touches (tip_set_random_trigger a b w).1.log ≡ touches w.log
  unfolding tip_set_random_trigger
  tip_set_random_trigger_untouched a b w closed = rw closed refl

  pub tip_disable_random_trigger_untouched :
      (w : World)
      → w.lib.opened ≡ false
      → touches (tip_disable_random_trigger w).1.log ≡ touches w.log
  unfolding tip_disable_random_trigger
  tip_disable_random_trigger_untouched w closed = rw closed refl

  pub tip_set_prescale_untouched :
      (a : ℤ) (w : World)
      → w.lib.opened ≡ false
      → touches (tip_set_prescale a w).1.log ≡ touches w.log
  unfolding tip_set_prescale
  tip_set_prescale_untouched a w closed = rw closed refl

  pub tip_set_prompt_trigger_width_untouched :
      (a : ℤ) (w : World)
      → w.lib.opened ≡ false
      → touches (tip_set_prompt_trigger_width a w).1.log ≡ touches w.log
  unfolding tip_set_prompt_trigger_width
  tip_set_prompt_trigger_width_untouched a w closed = rw closed refl

  pub tip_get_prescale_untouched :
      (w : World) → w.lib.opened ≡ false → touches (tip_get_prescale dev w).1.log ≡ touches w.log
  unfolding tip_get_prescale
  tip_get_prescale_untouched w closed = rw closed refl

  pub tip_get_prompt_trigger_width_untouched :
      (w : World)
      → w.lib.opened ≡ false
      → touches (tip_get_prompt_trigger_width dev w).1.log ≡ touches w.log
  unfolding tip_get_prompt_trigger_width
  tip_get_prompt_trigger_width_untouched w closed = rw closed refl

  pub tip_set_input_prescale_untouched :
      (a : ℤ) (b : ℤ) (w : World)
      → w.lib.opened ≡ false
      → touches (tip_set_input_prescale dev a b w).1.log ≡ touches w.log
  unfolding tip_set_input_prescale
  tip_set_input_prescale_untouched a b w closed = rw closed refl

  pub tip_get_input_prescale_untouched :
      (a : ℤ) (w : World)
      → w.lib.opened ≡ false
      → touches (tip_get_input_prescale dev a w).1.log ≡ touches w.log
  unfolding tip_get_input_prescale
  tip_get_input_prescale_untouched a w closed = rw closed refl

  pub tip_set_trigger_pulse_untouched :
      (a : ℤ) (b : ℤ) (c : ℤ) (d : ℤ) (w : World)
      → w.lib.opened ≡ false
      → touches (tip_set_trigger_pulse dev a b c d w).1.log ≡ touches w.log
  unfolding tip_set_trigger_pulse
  tip_set_trigger_pulse_untouched a b c d w closed = rw closed refl
