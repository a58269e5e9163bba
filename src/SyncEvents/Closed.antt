-- ===== src/SyncEvents/Closed.antt =====
-- While the library is not open, the calls on the sync events do not touch the card.
use tipcie.Prelude.{ℕ, ℤ, false, ◌≡◌, refl}
use tipcie.Machine.{Device, World}
use tipcie.Machine.Touch.{touches}
use tipcie.SyncEvents.{
  tip_set_sync_event_interval, tip_get_sync_event_interval, tip_force_sync_event,
  tip_sync_reset_request, tip_get_sync_reset_request, tip_enable_sync_reset_request,
  tip_sync_reset_request_status,
}

module _ (dev : Device) where
  pub tip_set_sync_event_interval_untouched :
      (a : ℤ) (w : World)
      → w.lib.opened ≡ false
      → touches (tip_set_sync_event_interval a w).1.log ≡ touches w.log
  unfolding tip_set_sync_event_interval
  tip_set_sync_event_interval_untouched a w closed = rw closed refl

  pub tip_get_sync_event_interval_untouched :
      (w : World)
      → w.lib.opened ≡ false
      → touches (tip_get_sync_event_interval dev w).1.log ≡ touches w.log
  unfolding tip_get_sync_event_interval
  tip_get_sync_event_interval_untouched w closed = rw closed refl

  pub tip_force_sync_event_untouched :
      (w : World) → w.lib.opened ≡ false → touches (tip_force_sync_event w).1.log ≡ touches w.log
  unfolding tip_force_sync_event
  tip_force_sync_event_untouched w closed = rw closed refl

  pub tip_sync_reset_request_untouched :
      (w : World) → w.lib.opened ≡ false → touches (tip_sync_reset_request w).1.log ≡ touches w.log
  unfolding tip_sync_reset_request
  tip_sync_reset_request_untouched w closed = rw closed refl

  pub tip_get_sync_reset_request_untouched :
      (w : World)
      → w.lib.opened ≡ false
      → touches (tip_get_sync_reset_request dev w).1.log ≡ touches w.log
  unfolding tip_get_sync_reset_request
  tip_get_sync_reset_request_untouched w closed = rw closed refl

  pub tip_enable_sync_reset_request_untouched :
      (a : ℕ) (b : ℤ) (w : World)
      → w.lib.opened ≡ false
      → touches (tip_enable_sync_reset_request dev a b w).1.log ≡ touches w.log
  unfolding tip_enable_sync_reset_request
  tip_enable_sync_reset_request_untouched a b w closed = rw closed refl

  pub tip_sync_reset_request_status_untouched :
      (a : ℤ) (w : World)
      → w.lib.opened ≡ false
      → touches (tip_sync_reset_request_status dev a w).1.log ≡ touches w.log
  unfolding tip_sync_reset_request_status
  tip_sync_reset_request_status_untouched a w closed = rw closed refl
