-- ===== src/Setup/Idle.antt =====
-- The calls on the card as a whole use the mutex as they should.
use tipcie.Prelude.{ℕ, ℤ, arith}
use tipcie.Machine.{Device}
use tipcie.Machine.Lock.{KeepsIdle}
use tipcie.Setup.{
  Os, tip_open, tip_close, tip_reset_mgt, tip_get_firmware_version, tip_enable_fifo, tip_dma_config,
  tip_dma_set_addr,
}

module _ (dev : Device) where
  pub tip_open-KeepsIdle : (a : Os) → KeepsIdle (tip_open a)
  unfolding tip_open
  tip_open-KeepsIdle a w h = ground arith

  pub tip_close-KeepsIdle : KeepsIdle tip_close
  unfolding tip_close
  tip_close-KeepsIdle w h = ground arith

  pub tip_reset_mgt-KeepsIdle : KeepsIdle tip_reset_mgt
  unfolding tip_reset_mgt
  tip_reset_mgt-KeepsIdle w h = ground arith

  pub tip_get_firmware_version-KeepsIdle : KeepsIdle (tip_get_firmware_version dev)
  unfolding tip_get_firmware_version
  tip_get_firmware_version-KeepsIdle w h = ground arith

  pub tip_enable_fifo-KeepsIdle : KeepsIdle (tip_enable_fifo dev)
  unfolding tip_enable_fifo
  tip_enable_fifo-KeepsIdle w h = ground arith

  pub tip_dma_config-KeepsIdle : (a : ℤ) (b : ℤ) (c : ℤ) → KeepsIdle (tip_dma_config dev a b c)
  unfolding tip_dma_config
  tip_dma_config-KeepsIdle a b c w h = ground arith

  pub tip_dma_set_addr-KeepsIdle : (a : ℕ) (b : ℕ) → KeepsIdle (tip_dma_set_addr dev a b)
  unfolding tip_dma_set_addr
  tip_dma_set_addr-KeepsIdle a b w h = ground arith
