-- ===== src/Crate/Closed.antt =====
-- While the library is not open, the calls on the crate and its identity do not touch the card.
use tipcie.Prelude.{ℕ, ℤ, false, ◌≡◌, refl, arith}
use tipcie.Machine.{Device, World}
use tipcie.Machine.Touch.{touches}
use tipcie.Crate.{
  tip_set_fiber_latency_offset_pre_init, tip_set_crate_id_pre_init, tip_set_crate_id,
  tip_get_crate_id, tip_get_port_trig_src_enabled, tip_get_slave_blocklevel, tip_reset,
  tip_clock_resync,
}

module _ (dev : Device) where
  pub tip_set_fiber_latency_offset_pre_init_untouched :
      (a : ℤ) (w : World)
      → w.lib.opened ≡ false
      → touches (tip_set_fiber_latency_offset_pre_init a w).1.log ≡ touches w.log
  unfolding tip_set_fiber_latency_offset_pre_init
  tip_set_fiber_latency_offset_pre_init_untouched a w closed = ground arith

  pub tip_set_crate_id_pre_init_untouched :
      (a : ℤ) (w : World)
      → w.lib.opened ≡ false
      → touches (tip_set_crate_id_pre_init a w).1.log ≡ touches w.log
  unfolding tip_set_crate_id_pre_init
  tip_set_crate_id_pre_init_untouched a w closed = ground arith

  pub tip_set_crate_id_untouched :
      (a : ℕ) (w : World)
      → w.lib.opened ≡ false
      → touches (tip_set_crate_id dev a w).1.log ≡ touches w.log
  unfolding tip_set_crate_id
  tip_set_crate_id_untouched a w closed = rw closed refl

  pub tip_get_crate_id_untouched :
      (a : ℤ) (w : World)
      → w.lib.opened ≡ false
      → touches (tip_get_crate_id dev a w).1.log ≡ touches w.log
  unfolding tip_get_crate_id
  tip_get_crate_id_untouched a w closed = rw closed refl

  pub tip_get_port_trig_src_enabled_untouched :
      (a : ℤ) (w : World)
      → w.lib.opened ≡ false
      → touches (tip_get_port_trig_src_enabled dev a w).1.log ≡ touches w.log
  unfolding tip_get_port_trig_src_enabled
  tip_get_port_trig_src_enabled_untouched a w closed = rw closed refl

  pub tip_get_slave_blocklevel_untouched :
      (a : ℤ) (w : World)
      → w.lib.opened ≡ false
      → touches (tip_get_slave_blocklevel dev a w).1.log ≡ touches w.log
  unfolding tip_get_slave_blocklevel
  tip_get_slave_blocklevel_untouched a w closed = rw closed refl

  pub tip_reset_untouched :
      (w : World) → w.lib.opened ≡ false → touches (tip_reset dev w).1.log ≡ touches w.log
  unfolding tip_reset
  tip_reset_untouched w closed = rw closed refl

  pub tip_clock_resync_untouched :
      (w : World) → w.lib.opened ≡ false → touches (tip_clock_resync dev w).1.log ≡ touches w.log
  unfolding tip_clock_resync
  tip_clock_resync_untouched w closed = rw closed refl
