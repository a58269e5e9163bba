-- ===== src/Trigger/Closed.antt =====
-- While the library is not open, the calls on the trigger sources do not touch the card.
use tipcie.Prelude.{ℤ, false, ◌≡◌, refl}
use tipcie.Machine.{Device, World}
use tipcie.Machine.Touch.{touches}
use tipcie.Trigger.{
  tip_set_trigger_source, tip_set_trigger_source_mask, tip_enable_trigger_source,
  tip_fill_to_end_block, tip_disable_trigger_source, tip_trigger_ready_reset,
  tip_force_send_trigger_source_enable,
}

module _ (dev : Device) where
  pub tip_set_trigger_source_untouched :
      (a : ℤ) (w : World)
      → w.lib.opened ≡ false
      → touches (tip_set_trigger_source a w).1.log ≡ touches w.log
  unfolding tip_set_trigger_source
  tip_set_trigger_source_untouched a w closed = rw closed refl

  pub tip_set_trigger_source_mask_untouched :
      (a : ℤ) (w : World)
      → w.lib.opened ≡ false
      → touches (tip_set_trigger_source_mask a w).1.log ≡ touches w.log
  unfolding tip_set_trigger_source_mask
  tip_set_trigger_source_mask_untouched a w closed = rw closed refl

  pub tip_enable_trigger_source_untouched :
      (w : World)
      → w.lib.opened ≡ false
      → touches (tip_enable_trigger_source w).1.log ≡ touches w.log
  unfolding tip_enable_trigger_source
  tip_enable_trigger_source_untouched w closed = rw closed refl

  pub tip_fill_to_end_block_untouched :
      (w : World) → w.lib.opened ≡ false → touches (tip_fill_to_end_block w).1.log ≡ touches w.log
  unfolding tip_fill_to_end_block
  tip_fill_to_end_block_untouched w closed = rw closed refl

  pub tip_disable_trigger_source_untouched :
      (a : ℤ) (w : World)
      → w.lib.opened ≡ false
      → touches (tip_disable_trigger_source a w).1.log ≡ touches w.log
  unfolding tip_disable_trigger_source
  tip_disable_trigger_source_untouched a w closed = rw closed refl

  pub tip_trigger_ready_reset_untouched :
      (w : World) → w.lib.opened ≡ false → touches (tip_trigger_ready_reset w).1.log ≡ touches w.log
  unfolding tip_trigger_ready_reset
  tip_trigger_ready_reset_untouched w closed = rw closed refl

  pub tip_force_send_trigger_source_enable_untouched :
      (w : World)
      → w.lib.opened ≡ false
      → touches (tip_force_send_trigger_source_enable dev w).1.log ≡ touches w.log
  unfolding tip_force_send_trigger_source_enable
  tip_force_send_trigger_source_enable_untouched w closed = rw closed refl
