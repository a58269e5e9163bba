-- ===== src/History/Closed.antt =====
-- While the library is not open, the calls on the history of sync codes do not touch the card.
use tipcie.Prelude.{ℤ, false, ◌≡◌, refl}
use tipcie.Machine.{Device, World}
use tipcie.Machine.Touch.{touches}
use tipcie.History.{
  tip_set_user_sync_reset_receive, tip_get_last_sync_codes, tip_get_sync_history_buffer_status,
  tip_reset_sync_history, tip_user_sync_reset, tip_print_sync_history,
}

module _ (dev : Device) where
  pub tip_set_user_sync_reset_receive_untouched :
      (a : ℤ) (w : World)
      → w.lib.opened ≡ false
      → touches (tip_set_user_sync_reset_receive dev a w).1.log ≡ touches w.log
  unfolding tip_set_user_sync_reset_receive
  tip_set_user_sync_reset_receive_untouched a w closed = rw closed refl

  pub tip_get_last_sync_codes_untouched :
      (a : ℤ) (w : World)
      → w.lib.opened ≡ false
      → touches (tip_get_last_sync_codes dev a w).1.log ≡ touches w.log
  unfolding tip_get_last_sync_codes
  tip_get_last_sync_codes_untouched a w closed = rw closed refl

  pub tip_get_sync_history_buffer_status_untouched :
      (a : ℤ) (w : World)
      → w.lib.opened ≡ false
      → touches (tip_get_sync_history_buffer_status dev a w).1.log ≡ touches w.log
  unfolding tip_get_sync_history_buffer_status
  tip_get_sync_history_buffer_status_untouched a w closed = rw closed refl

  pub tip_reset_sync_history_untouched :
      (w : World) → w.lib.opened ≡ false → touches (tip_reset_sync_history w).1.log ≡ touches w.log
  unfolding tip_reset_sync_history
  tip_reset_sync_history_untouched w closed = rw closed refl

  pub tip_user_sync_reset_untouched :
      (a : ℤ) (w : World)
      → w.lib.opened ≡ false
      → touches (tip_user_sync_reset a w).1.log ≡ touches w.log
  unfolding tip_user_sync_reset
  tip_user_sync_reset_untouched a w closed = rw closed refl

  pub tip_print_sync_history_untouched :
      (w : World)
      → w.lib.opened ≡ false
      → touches (tip_print_sync_history dev w).1.log ≡ touches w.log
  unfolding tip_print_sync_history
  tip_print_sync_history_untouched w closed = rw closed refl
