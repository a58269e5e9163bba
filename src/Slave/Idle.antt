-- ===== src/Slave/Idle.antt =====
-- The calls on the slave's port use the mutex as they should.
use tipcie.Prelude.{ℤ, arith}
use tipcie.Machine.{Device}
use tipcie.Machine.Lock.{KeepsIdle}
use tipcie.Fiber.Idle.{tip_enable_fiber-KeepsIdle, tip_set_clock_source-KeepsIdle}
use tipcie.Sync.Idle.{tip_set_sync_source-KeepsIdle}
use tipcie.Trigger.Idle.{tip_set_trigger_source-KeepsIdle}
use tipcie.Latency.Idle.{fiber_meas-KeepsIdle}
use tipcie.Slave.{
  tip_set_slave_port, tip_get_connected_fiber_mask, tip_get_trig_src_enabled_fiber_mask,
  tip_get_fiber_latency_measurement, tip_reset_mgtreceiver, tip_reset_block_readout, align_fiber,
}

module _ (dev : Device) where
  align_fiber-KeepsIdle : KeepsIdle align_fiber
  unfolding align_fiber
  align_fiber-KeepsIdle w h = ground arith

  -- The calls in a row each leave the mutex free.
  pub tip_set_slave_port-KeepsIdle : (a : ℤ) → KeepsIdle (tip_set_slave_port dev a)
  unfolding tip_set_slave_port
  tip_set_slave_port-KeepsIdle a w h = grind (
    arith, tip_enable_fiber-KeepsIdle, tip_set_clock_source-KeepsIdle,
    tip_set_sync_source-KeepsIdle, tip_set_trigger_source-KeepsIdle, fiber_meas-KeepsIdle,
    align_fiber-KeepsIdle,
  )

  pub tip_get_connected_fiber_mask-KeepsIdle : KeepsIdle (tip_get_connected_fiber_mask dev)
  unfolding tip_get_connected_fiber_mask
  tip_get_connected_fiber_mask-KeepsIdle w h = ground arith

  pub tip_get_trig_src_enabled_fiber_mask-KeepsIdle :
      KeepsIdle (tip_get_trig_src_enabled_fiber_mask dev)
  unfolding tip_get_trig_src_enabled_fiber_mask
  tip_get_trig_src_enabled_fiber_mask-KeepsIdle w h = ground arith

  pub tip_get_fiber_latency_measurement-KeepsIdle : KeepsIdle tip_get_fiber_latency_measurement
  unfolding tip_get_fiber_latency_measurement
  tip_get_fiber_latency_measurement-KeepsIdle w h = ground arith

  pub tip_reset_mgtreceiver-KeepsIdle : KeepsIdle tip_reset_mgtreceiver
  unfolding tip_reset_mgtreceiver
  tip_reset_mgtreceiver-KeepsIdle w h = ground arith

  pub tip_reset_block_readout-KeepsIdle : KeepsIdle tip_reset_block_readout
  unfolding tip_reset_block_readout
  tip_reset_block_readout-KeepsIdle w h = ground arith
