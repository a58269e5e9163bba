-- ===== src/Buffer/Closed.antt =====
-- While the library is not open, the calls on the buffer level and the blocks that wait do not touch the card.
use tipcie.Prelude.{not, true, ℕ, ℤ, false, ◌≡◌, refl, arith}
use tipcie.Machine.{Device, World}
use tipcie.Machine.Touch.{touches}
use tipcie.Buffer.{
  tip_set_block_buffer_level, tip_get_broadcast_block_buffer_level, tip_busy_on_buffer_level,
  tip_use_broadcast_buffer_level, tip_set_block_limit, tip_get_block_limit,
  tip_get_block_limit_status, tip_bready, tip_get_sync_event_flag, tip_get_sync_event_received,
  tip_get_readout_events,
}

module _ (dev : Device) where
  pub tip_set_block_buffer_level_untouched :
      (a : ℕ) (w : World)
      → w.lib.opened ≡ false
      → touches (tip_set_block_buffer_level dev a w).1.log ≡ touches w.log
  unfolding tip_set_block_buffer_level
  tip_set_block_buffer_level_untouched a w closed = rw closed refl

  pub tip_get_broadcast_block_buffer_level_untouched :
      (w : World)
      → w.lib.opened ≡ false
      → touches (tip_get_broadcast_block_buffer_level dev w).1.log ≡ touches w.log
  unfolding tip_get_broadcast_block_buffer_level
  tip_get_broadcast_block_buffer_level_untouched w closed = rw closed refl

  pub tip_busy_on_buffer_level_untouched :
      (a : ℤ) (w : World)
      → w.lib.opened ≡ false
      → touches (tip_busy_on_buffer_level dev a w).1.log ≡ touches w.log
  unfolding tip_busy_on_buffer_level
  tip_busy_on_buffer_level_untouched a w closed = rw closed refl

  pub tip_use_broadcast_buffer_level_untouched :
      (a : ℤ) (w : World)
      → w.lib.opened ≡ false
      → touches (tip_use_broadcast_buffer_level dev a w).1.log ≡ touches w.log
  unfolding tip_use_broadcast_buffer_level
  tip_use_broadcast_buffer_level_untouched a w closed = rw closed refl

  pub tip_set_block_limit_untouched :
      (a : ℕ) (w : World)
      → w.lib.opened ≡ false
      → touches (tip_set_block_limit dev a w).1.log ≡ touches w.log
  unfolding tip_set_block_limit
  tip_set_block_limit_untouched a w closed = rw closed refl

  pub tip_get_block_limit_untouched :
      (w : World) → w.lib.opened ≡ false → touches (tip_get_block_limit dev w).1.log ≡ touches w.log
  unfolding tip_get_block_limit
  tip_get_block_limit_untouched w closed = rw closed refl

  pub tip_get_block_limit_status_untouched :
      (w : World)
      → w.lib.opened ≡ false
      → touches (tip_get_block_limit_status dev w).1.log ≡ touches w.log
  unfolding tip_get_block_limit_status
  tip_get_block_limit_status_untouched w closed = rw closed refl

  pub tip_bready_untouched :
      (w : World) → w.lib.opened ≡ false → touches (tip_bready dev w).1.log ≡ touches w.log
  unfolding tip_bready
  tip_bready_untouched w closed = rw closed refl

  pub tip_get_sync_event_flag_untouched :
      (w : World) → w.lib.opened ≡ false → touches (tip_get_sync_event_flag w).1.log ≡ touches w.log
  unfolding tip_get_sync_event_flag
  tip_get_sync_event_flag_untouched w closed = refl

  pub tip_get_sync_event_received_untouched :
      (w : World)
      → w.lib.opened ≡ false
      → touches (tip_get_sync_event_received w).1.log ≡ touches w.log
  unfolding tip_get_sync_event_received
  tip_get_sync_event_received_untouched w closed = refl

  pub tip_get_readout_events_untouched :
      (w : World) → w.lib.opened ≡ false → touches (tip_get_readout_events w).1.log ≡ touches w.log
  unfolding tip_get_readout_events
  tip_get_readout_events_untouched w closed = refl

  pub tip_bready_shut : (w : World) → w.lib.opened ≡ false → tip_bready dev w ≡ (0, w)
  unfolding tip_bready
  tip_bready_shut w closed = let shut : not w.lib.opened ≡ true = ground arith in rw shut refl
