-- ===== src/Fiber/Idle.antt =====
-- The calls on the fibers, busy sources and the clock use the mutex as they should.
use tipcie.Prelude.{ℕ, ℤ, arith}
use tipcie.Machine.{Device}
use tipcie.Machine.Lock.{KeepsIdle}
use tipcie.Fiber.{
  tip_set_fiber_delay, tip_enable_fiber, tip_disable_fiber, tip_set_busy_source,
  tip_set_trigger_lock, tip_get_trigger_lock, tip_reset_slave_config, tip_add_slave,
  tip_set_clock_source, tip_get_clock_source,
}

module _ (dev : Device) where
  pub tip_set_fiber_delay-KeepsIdle : (a : ℕ) (b : ℕ) → KeepsIdle (tip_set_fiber_delay a b)
  unfolding tip_set_fiber_delay
  tip_set_fiber_delay-KeepsIdle a b w h = ground arith

  pub tip_enable_fiber-KeepsIdle : (a : ℕ) → KeepsIdle (tip_enable_fiber dev a)
  unfolding tip_enable_fiber
  tip_enable_fiber-KeepsIdle a w h = ground arith

  pub tip_disable_fiber-KeepsIdle : (a : ℕ) → KeepsIdle (tip_disable_fiber dev a)
  unfolding tip_disable_fiber
  tip_disable_fiber-KeepsIdle a w h = ground arith

  pub tip_set_busy_source-KeepsIdle : (a : ℕ) (b : ℤ) → KeepsIdle (tip_set_busy_source dev a b)
  unfolding tip_set_busy_source
  tip_set_busy_source-KeepsIdle a b w h = ground arith

  pub tip_set_trigger_lock-KeepsIdle : (a : ℤ) → KeepsIdle (tip_set_trigger_lock dev a)
  unfolding tip_set_trigger_lock
  tip_set_trigger_lock-KeepsIdle a w h = ground arith

  pub tip_get_trigger_lock-KeepsIdle : KeepsIdle (tip_get_trigger_lock dev)
  unfolding tip_get_trigger_lock
  tip_get_trigger_lock-KeepsIdle w h = ground arith

  pub tip_reset_slave_config-KeepsIdle : KeepsIdle (tip_reset_slave_config dev)
  unfolding tip_reset_slave_config
  tip_reset_slave_config-KeepsIdle w h = ground arith

  pub tip_add_slave-KeepsIdle : (a : ℕ) → KeepsIdle (tip_add_slave dev a)
  unfolding tip_add_slave
  tip_add_slave-KeepsIdle a w h =
      grind (arith, tip_set_busy_source-KeepsIdle, tip_enable_fiber-KeepsIdle)

  pub tip_set_clock_source-KeepsIdle : (a : ℕ) → KeepsIdle (tip_set_clock_source dev a)
  unfolding tip_set_clock_source
  tip_set_clock_source-KeepsIdle a w h = ground arith

  pub tip_get_clock_source-KeepsIdle : KeepsIdle (tip_get_clock_source dev)
  unfolding tip_get_clock_source
  tip_get_clock_source-KeepsIdle w h = ground arith
