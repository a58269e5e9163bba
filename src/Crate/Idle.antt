-- ===== src/Crate/Idle.antt =====
-- The calls on the crate and its identity use the mutex as they should.
use tipcie.Prelude.{ℕ, ℤ, arith}
use tipcie.Machine.{Device}
use tipcie.Machine.Lock.{KeepsIdle}
use tipcie.Crate.{
  tip_set_fiber_latency_offset_pre_init, tip_set_crate_id_pre_init, tip_set_crate_id,
  tip_get_crate_id, tip_get_port_trig_src_enabled, tip_get_slave_blocklevel, tip_reset,
  tip_clock_resync,
}

module _ (dev : Device) where
  pub tip_set_fiber_latency_offset_pre_init-KeepsIdle :
      (a : ℤ) → KeepsIdle (tip_set_fiber_latency_offset_pre_init a)
  unfolding tip_set_fiber_latency_offset_pre_init
  tip_set_fiber_latency_offset_pre_init-KeepsIdle a w h = ground arith

  pub tip_set_crate_id_pre_init-KeepsIdle : (a : ℤ) → KeepsIdle (tip_set_crate_id_pre_init a)
  unfolding tip_set_crate_id_pre_init
  tip_set_crate_id_pre_init-KeepsIdle a w h = ground arith

  pub tip_set_crate_id-KeepsIdle : (a : ℕ) → KeepsIdle (tip_set_crate_id dev a)
  unfolding tip_set_crate_id
  tip_set_crate_id-KeepsIdle a w h = ground arith

  pub tip_get_crate_id-KeepsIdle : (a : ℤ) → KeepsIdle (tip_get_crate_id dev a)
  unfolding tip_get_crate_id
  tip_get_crate_id-KeepsIdle a w h = ground arith

  pub tip_get_port_trig_src_enabled-KeepsIdle :
      (a : ℤ) → KeepsIdle (tip_get_port_trig_src_enabled dev a)
  unfolding tip_get_port_trig_src_enabled
  tip_get_port_trig_src_enabled-KeepsIdle a w h = ground arith

  pub tip_get_slave_blocklevel-KeepsIdle : (a : ℤ) → KeepsIdle (tip_get_slave_blocklevel dev a)
  unfolding tip_get_slave_blocklevel
  tip_get_slave_blocklevel-KeepsIdle a w h = ground arith

  pub tip_reset-KeepsIdle : KeepsIdle (tip_reset dev)
  unfolding tip_reset
  tip_reset-KeepsIdle w h = ground arith

  pub tip_clock_resync-KeepsIdle : KeepsIdle (tip_clock_resync dev)
  unfolding tip_clock_resync
  tip_clock_resync-KeepsIdle w h = ground arith
