-- ===== src/Slave.antt =====
-- TIpcieLib.c: a slave's port, what the master sees of its fibers, and resets of single parts.
pub mod Idle
pub mod Closed
use tipcie.Prelude.{
  ℕ, zero, suc, ◌/◌, ◌^◌, Bool, true, false, not, bit_and, Option, none, some, ℤ, pos, negsuc, ok,
  error, above, equals, truthy, to_int, if◌then◌else◌,
}
use tipcie.Machine.{
  Device, M, pure, ◌>>=◌, ◌>>◌, globals, tiplock, tipunlock, usleep, tip_read, tip_write,
}
use tipcie.Fiber.{tip_enable_fiber, tip_set_clock_source}
use tipcie.Sync.{tip_set_sync_source}
use tipcie.Trigger.{tip_set_trigger_source}
use tipcie.Latency.{fiber_meas}
use tipcie.Machine.Reg
use tipcie.Machine.Macro

pub tip_get_fiber_latency_measurement : M ℕ
tip_get_fiber_latency_measurement = do g ← globals; pure g.fiber_latency_measurement

pub tip_reset_mgtreceiver : M ℤ
tip_reset_mgtreceiver = do
  g ← globals
  if not g.opened
      then pure error
      else if not (truthy g.master)
      then pure error
      else do tiplock; tip_write Reg.reset Macro.reset_mgt_receiver; tipunlock; usleep 10; pure ok

pub tip_reset_block_readout : M (Unit {0})
tip_reset_block_readout = do
  g ← globals
  if not g.opened
      then pure tt
      else do tiplock; tip_write Reg.reset Macro.reset_block_readout; tipunlock

-- The resets that align a slave with its master.
align_fiber : M (Unit {0})
align_fiber = do
  tiplock
  tip_write Reg.reset Macro.reset_iodelay
  usleep 10
  tip_write Reg.reset Macro.reset_autoalign_hfbr1_sync
  usleep 10
  tip_write Reg.reset Macro.reset_measure_latency
  usleep 10
  tip_write Reg.reset Macro.reset_fiber_auto_align
  usleep 10
  tipunlock

-- Whether a call returned ERROR.
is_error : ℤ → Bool
is_error (pos n) = false
is_error (negsuc zero) = true
is_error (negsuc (suc n)) = false

module _ (dev : Device) where
  pub tip_set_slave_port : ℤ → M ℤ
  unfolding align_fiber is_error
  tip_set_slave_port port = do
    g ← globals
    if not g.opened
        then pure error
        else if truthy g.master
        then pure error
        else if not (equals port 1)
        then pure error
        else do
          tip_enable_fiber dev 1
          tip_set_clock_source dev 1
          tip_set_sync_source Macro.sync_hfbr1
          tip_set_trigger_source (pos Macro.trigger_hfbr1)
          meas ← fiber_meas dev
          let aligned = align_fiber >> pure ok
          if is_error meas then pure error else aligned

  pub tip_get_connected_fiber_mask : M ℤ
  tip_get_connected_fiber_mask = do
    g ← globals
    if not g.opened then pure error else if not (truthy g.master) then pure error else do
      tiplock
      v ← tip_read dev Reg.fiber
      tipunlock
      pure (to_int (bit_and v Macro.fiber_connected_mask / 2 ^ 16))

  pub tip_get_trig_src_enabled_fiber_mask : M ℤ
  tip_get_trig_src_enabled_fiber_mask = do
    g ← globals
    if not g.opened then pure error else if not (truthy g.master) then pure error else do
      tiplock
      v ← tip_read dev Reg.fiber
      tipunlock
      pure (to_int (bit_and v Macro.fiber_trigsrc_enabled_mask / 2 ^ 24))

  -- `none`: the pointer `TIPp` is NULL, which the function does not check.
  pub tip_get_gtpbuffer_length : ℤ → M (Option ℤ)
  tip_get_gtpbuffer_length pflag = do
    tiplock
    g ← globals
    if not g.opened
        then pure none
        else do v ← tip_read dev Reg.gtptrigger_buffer_length; tipunlock; pure (some (to_int v))

  -- The registers are read without the mutex.
  pub tip_block_status : ℤ → ℤ → M ℤ
  tip_block_status fiber pflag = do
    g ← globals
    if not g.opened
        then pure error
        else if above fiber 1
        then pure error
        else if equals fiber 0
        then (do v ← tip_read dev Reg.adr24; pure (to_int (bit_and v 0xffff0000 / 2 ^ 16)))
        else if equals fiber 1
        then (do v ← tip_read dev Reg.block_status; pure (to_int (bit_and v 0xffff)))
        else pure (pos 0)
