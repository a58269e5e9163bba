-- ===== src/Slave/Closed.antt =====
-- While the library is not open, the calls on the slave's port do not touch the card.
use tipcie.Prelude.{ℤ, false, ◌≡◌, refl}
use tipcie.Machine.{Device, World}
use tipcie.Machine.Touch.{touches}
use tipcie.Slave.{
  tip_set_slave_port, tip_get_connected_fiber_mask, tip_get_trig_src_enabled_fiber_mask,
  tip_get_fiber_latency_measurement, tip_reset_mgtreceiver, tip_reset_block_readout,
}

module _ (dev : Device) where
  pub tip_set_slave_port_untouched :
      (a : ℤ) (w : World)
      → w.lib.opened ≡ false
      → touches (tip_set_slave_port dev a w).1.log ≡ touches w.log
  unfolding tip_set_slave_port
  tip_set_slave_port_untouched a w closed = rw closed refl

  pub tip_get_connected_fiber_mask_untouched :
      (w : World)
      → w.lib.opened ≡ false
      → touches (tip_get_connected_fiber_mask dev w).1.log ≡ touches w.log
  unfolding tip_get_connected_fiber_mask
  tip_get_connected_fiber_mask_untouched w closed = rw closed refl

  pub tip_get_trig_src_enabled_fiber_mask_untouched :
      (w : World)
      → w.lib.opened ≡ false
      → touches (tip_get_trig_src_enabled_fiber_mask dev w).1.log ≡ touches w.log
  unfolding tip_get_trig_src_enabled_fiber_mask
  tip_get_trig_src_enabled_fiber_mask_untouched w closed = rw closed refl

  pub tip_get_fiber_latency_measurement_untouched :
      (w : World)
      → w.lib.opened ≡ false
      → touches (tip_get_fiber_latency_measurement w).1.log ≡ touches w.log
  unfolding tip_get_fiber_latency_measurement
  tip_get_fiber_latency_measurement_untouched w closed = refl

  pub tip_reset_mgtreceiver_untouched :
      (w : World) → w.lib.opened ≡ false → touches (tip_reset_mgtreceiver w).1.log ≡ touches w.log
  unfolding tip_reset_mgtreceiver
  tip_reset_mgtreceiver_untouched w closed = rw closed refl

  pub tip_reset_block_readout_untouched :
      (w : World) → w.lib.opened ≡ false → touches (tip_reset_block_readout w).1.log ≡ touches w.log
  unfolding tip_reset_block_readout
  tip_reset_block_readout_untouched w closed = rw closed refl
