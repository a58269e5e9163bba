-- ===== src/Fiber/Closed.antt =====
-- While the library is not open, the calls on the fibers, busy sources and the clock do not touch the card.
use tipcie.Prelude.{ℕ, ℤ, false, ◌≡◌, refl}
use tipcie.Machine.{Device, World}
use tipcie.Machine.Touch.{touches}
use tipcie.Fiber.{
  tip_set_fiber_delay, tip_enable_fiber, tip_disable_fiber, tip_set_busy_source,
  tip_set_trigger_lock, tip_get_trigger_lock, tip_reset_slave_config, tip_add_slave,
  tip_set_clock_source, tip_get_clock_source,
}

module _ (dev : Device) where
  pub tip_set_fiber_delay_untouched :
      (a : ℕ) (b : ℕ) (w : World)
      → w.lib.opened ≡ false
      → touches (tip_set_fiber_delay a b w).1.log ≡ touches w.log
  unfolding tip_set_fiber_delay
  tip_set_fiber_delay_untouched a b w closed = rw closed refl

  pub tip_enable_fiber_untouched :
      (a : ℕ) (w : World)
      → w.lib.opened ≡ false
      → touches (tip_enable_fiber dev a w).1.log ≡ touches w.log
  unfolding tip_enable_fiber
  tip_enable_fiber_untouched a w closed = rw closed refl

  pub tip_disable_fiber_untouched :
      (a : ℕ) (w : World)
      → w.lib.opened ≡ false
      → touches (tip_disable_fiber dev a w).1.log ≡ touches w.log
  unfolding tip_disable_fiber
  tip_disable_fiber_untouched a w closed = rw closed refl

  pub tip_set_busy_source_untouched :
      (a : ℕ) (b : ℤ) (w : World)
      → w.lib.opened ≡ false
      → touches (tip_set_busy_source dev a b w).1.log ≡ touches w.log
  unfolding tip_set_busy_source
  tip_set_busy_source_untouched a b w closed = rw closed refl

  pub tip_set_trigger_lock_untouched :
      (a : ℤ) (w : World)
      → w.lib.opened ≡ false
      → touches (tip_set_trigger_lock dev a w).1.log ≡ touches w.log
  unfolding tip_set_trigger_lock
  tip_set_trigger_lock_untouched a w closed = rw closed refl

  pub tip_get_trigger_lock_untouched :
      (w : World)
      → w.lib.opened ≡ false
      → touches (tip_get_trigger_lock dev w).1.log ≡ touches w.log
  unfolding tip_get_trigger_lock
  tip_get_trigger_lock_untouched w closed = rw closed refl

  pub tip_reset_slave_config_untouched :
      (w : World)
      → w.lib.opened ≡ false
      → touches (tip_reset_slave_config dev w).1.log ≡ touches w.log
  unfolding tip_reset_slave_config
  tip_reset_slave_config_untouched w closed = rw closed refl

  pub tip_add_slave_untouched :
      (a : ℕ) (w : World)
      → w.lib.opened ≡ false
      → touches (tip_add_slave dev a w).1.log ≡ touches w.log
  unfolding tip_add_slave
  tip_add_slave_untouched a w closed = rw closed refl

  pub tip_set_clock_source_untouched :
      (a : ℕ) (w : World)
      → w.lib.opened ≡ false
      → touches (tip_set_clock_source dev a w).1.log ≡ touches w.log
  unfolding tip_set_clock_source
  tip_set_clock_source_untouched a w closed = rw closed refl

  pub tip_get_clock_source_untouched :
      (w : World)
      → w.lib.opened ≡ false
      → touches (tip_get_clock_source dev w).1.log ≡ touches w.log
  unfolding tip_get_clock_source
  tip_get_clock_source_untouched w closed = rw closed refl
