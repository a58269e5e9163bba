-- ===== src/Block/Closed.antt =====
-- While the library is not open, the calls on the block level do not touch the card.
use tipcie.Prelude.{ℤ, false, ◌≡◌, refl}
use tipcie.Machine.{Device, World}
use tipcie.Machine.Touch.{touches}
use tipcie.Block.{
  tip_get_next_block_level, tip_get_current_block_level, tip_broadcast_next_block_level,
  tip_set_block_level, tip_set_instant_block_level_change, tip_get_instant_block_level_change,
}

module _ (dev : Device) where
  pub tip_get_next_block_level_untouched :
      (w : World)
      → w.lib.opened ≡ false
      → touches (tip_get_next_block_level dev w).1.log ≡ touches w.log
  unfolding tip_get_next_block_level
  tip_get_next_block_level_untouched w closed = rw closed refl

  pub tip_get_current_block_level_untouched :
      (w : World)
      → w.lib.opened ≡ false
      → touches (tip_get_current_block_level dev w).1.log ≡ touches w.log
  unfolding tip_get_current_block_level
  tip_get_current_block_level_untouched w closed = rw closed refl

  pub tip_broadcast_next_block_level_untouched :
      (a : ℤ) (w : World)
      → w.lib.opened ≡ false
      → touches (tip_broadcast_next_block_level dev a w).1.log ≡ touches w.log
  unfolding tip_broadcast_next_block_level
  tip_broadcast_next_block_level_untouched a w closed = rw closed refl

  pub tip_set_block_level_untouched :
      (a : ℤ) (w : World)
      → w.lib.opened ≡ false
      → touches (tip_set_block_level dev a w).1.log ≡ touches w.log
  unfolding tip_set_block_level tip_broadcast_next_block_level
  tip_set_block_level_untouched a w closed = rw closed refl

  pub tip_set_instant_block_level_change_untouched :
      (a : ℤ) (w : World)
      → w.lib.opened ≡ false
      → touches (tip_set_instant_block_level_change dev a w).1.log ≡ touches w.log
  unfolding tip_set_instant_block_level_change
  tip_set_instant_block_level_change_untouched a w closed = rw closed refl

  pub tip_get_instant_block_level_change_untouched :
      (w : World)
      → w.lib.opened ≡ false
      → touches (tip_get_instant_block_level_change dev w).1.log ≡ touches w.log
  unfolding tip_get_instant_block_level_change
  tip_get_instant_block_level_change_untouched w closed = rw closed refl
