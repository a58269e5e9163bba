-- ===== src/Sync/Closed.antt =====
-- While the library is not open, the calls on the sync source and sync reset do not touch the card.
use tipcie.Prelude.{ℕ, ℤ, false, ◌≡◌, refl}
use tipcie.Machine.{Device, World}
use tipcie.Machine.Touch.{touches}
use tipcie.Sync.{
  tip_set_sync_source, tip_set_sync_delay_width, tip_trig_link_reset, tip_set_sync_reset_type,
  tip_sync_reset_resync, tip_reset_event_counter, tip_sync_reset, tip_clock_reset,
  tip_get_event_counter,
}

module _ (dev : Device) where
  pub tip_set_sync_source_untouched :
      (a : ℕ) (w : World)
      → w.lib.opened ≡ false
      → touches (tip_set_sync_source a w).1.log ≡ touches w.log
  unfolding tip_set_sync_source
  tip_set_sync_source_untouched a w closed = rw closed refl

  pub tip_set_sync_delay_width_untouched :
      (a : ℕ) (b : ℕ) (c : ℤ) (w : World)
      → w.lib.opened ≡ false
      → touches (tip_set_sync_delay_width a b c w).1.log ≡ touches w.log
  unfolding tip_set_sync_delay_width
  tip_set_sync_delay_width_untouched a b c w closed = rw closed refl

  pub tip_trig_link_reset_untouched :
      (w : World) → w.lib.opened ≡ false → touches (tip_trig_link_reset w).1.log ≡ touches w.log
  unfolding tip_trig_link_reset
  tip_trig_link_reset_untouched w closed = rw closed refl

  pub tip_set_sync_reset_type_untouched :
      (a : ℤ) (w : World)
      → w.lib.opened ≡ false
      → touches (tip_set_sync_reset_type a w).1.log ≡ touches w.log
  unfolding tip_set_sync_reset_type
  tip_set_sync_reset_type_untouched a w closed = refl

  pub tip_sync_reset_resync_untouched :
      (w : World) → w.lib.opened ≡ false → touches (tip_sync_reset_resync w).1.log ≡ touches w.log
  unfolding tip_sync_reset_resync
  tip_sync_reset_resync_untouched w closed = rw closed refl

  pub tip_reset_event_counter_untouched :
      (w : World) → w.lib.opened ≡ false → touches (tip_reset_event_counter w).1.log ≡ touches w.log
  unfolding tip_reset_event_counter
  tip_reset_event_counter_untouched w closed = rw closed refl

  pub tip_sync_reset_untouched :
      (a : ℤ) (w : World)
      → w.lib.opened ≡ false
      → touches (tip_sync_reset dev a w).1.log ≡ touches w.log
  unfolding tip_sync_reset
  tip_sync_reset_untouched a w closed = rw closed refl

  pub tip_clock_reset_untouched :
      (w : World) → w.lib.opened ≡ false → touches (tip_clock_reset dev w).1.log ≡ touches w.log
  unfolding tip_clock_reset
  tip_clock_reset_untouched w closed = rw closed refl

  pub tip_get_event_counter_untouched :
      (w : World)
      → w.lib.opened ≡ false
      → touches (tip_get_event_counter dev w).1.log ≡ touches w.log
  unfolding tip_get_event_counter
  tip_get_event_counter_untouched w closed = rw closed refl
