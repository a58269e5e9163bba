-- ===== src/Setup/Closed.antt =====
-- While the library is not open, the calls on the card as a whole do not touch the card.
use tipcie.Prelude.{ℕ, ℤ, false, ◌≡◌, refl}
use tipcie.Machine.{Device, World}
use tipcie.Machine.Touch.{touches}
use tipcie.Setup.{
  tip_reset_mgt, tip_get_firmware_version, tip_enable_fifo, tip_dma_config, tip_dma_set_addr,
}

module _ (dev : Device) where
  pub tip_reset_mgt_untouched :
      (w : World) → w.lib.opened ≡ false → touches (tip_reset_mgt w).1.log ≡ touches w.log
  unfolding tip_reset_mgt
  tip_reset_mgt_untouched w closed = rw closed refl

  pub tip_get_firmware_version_untouched :
      (w : World)
      → w.lib.opened ≡ false
      → touches (tip_get_firmware_version dev w).1.log ≡ touches w.log
  unfolding tip_get_firmware_version
  tip_get_firmware_version_untouched w closed = rw closed refl

  pub tip_enable_fifo_untouched :
      (w : World) → w.lib.opened ≡ false → touches (tip_enable_fifo dev w).1.log ≡ touches w.log
  unfolding tip_enable_fifo
  tip_enable_fifo_untouched w closed = rw closed refl

  pub tip_dma_config_untouched :
      (a : ℤ) (b : ℤ) (c : ℤ) (w : World)
      → w.lib.opened ≡ false
      → touches (tip_dma_config dev a b c w).1.log ≡ touches w.log
  unfolding tip_dma_config
  tip_dma_config_untouched a b c w closed = rw closed refl

  pub tip_dma_set_addr_untouched :
      (a : ℕ) (b : ℕ) (w : World)
      → w.lib.opened ≡ false
      → touches (tip_dma_set_addr dev a b w).1.log ≡ touches w.log
  unfolding tip_dma_set_addr
  tip_dma_set_addr_untouched a b w closed = rw closed refl
