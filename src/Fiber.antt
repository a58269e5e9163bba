-- ===== src/Fiber.antt =====
-- TIpcieLib.c: fibers to other crates, who may hold off triggers, slaves, and the clock.
pub mod Idle
pub mod Closed
pub mod Registers
use tipcie.Prelude.{
  ℕ, ◌-◌, ◌*◌, ◌/◌, ◌^◌, not, ◌||◌, bit_and, bit_or, ℤ, pos, ok, error, equals, truthy, to_int, ltb,
  ◌==◌, if◌then◌else◌,
}
use tipcie.Bits.Fields.{not32}
use tipcie.Machine.{
  Device, M, pure, ◌>>=◌, ◌>>◌, globals, update, tiplock, tipunlock, usleep, tip_read, tip_write,
}
use tipcie.Machine.Reg
use tipcie.Machine.Macro

-- `0xff` of a delay, in the three upper bytes.
abbrev pub three_bytes : ℕ → ℕ
three_bytes syncDelay =
    let byte = bit_and syncDelay 0xff in
    bit_or (bit_or (byte * 2 ^ 8) (byte * 2 ^ 16)) (byte * 2 ^ 24)

pub tip_set_fiber_delay : ℕ → ℕ → M (Unit {0})
tip_set_fiber_delay delay offset = do
  g ← globals
  if not g.opened then pure tt else do
    tiplock
    tip_write Reg.fiber_sync_delay (three_bytes (if ltb offset delay then 0 else offset - delay))
    tipunlock

module _ (dev : Device) where
  pub tip_enable_fiber : ℕ → M ℤ
  tip_enable_fiber fiber = do
    g ← globals
    if not g.opened then pure error else if ltb fiber 1 || ltb 8 fiber then pure error else do
      tiplock
      sval ← tip_read dev Reg.fiber
      tip_write Reg.fiber (bit_or sval (1 * 2 ^ (fiber - 1)))
      tipunlock
      pure ok

  -- It returns what the register held before.
  pub tip_disable_fiber : ℕ → M ℤ
  tip_disable_fiber fiber = do
    g ← globals
    if not g.opened then pure error else if ltb fiber 1 || ltb 8 fiber then pure error else do
      tiplock
      rval ← tip_read dev Reg.fiber
      tip_write Reg.fiber (bit_and rval (not32 (1 * 2 ^ (fiber - 1))))
      tipunlock
      pure (to_int rval)

  pub tip_set_busy_source : ℕ → ℤ → M ℤ
  tip_set_busy_source sourcemask r_flag = do
    g ← globals
    if not g.opened
        then pure error
        else if ltb Macro.busy_sourcemask sourcemask
        then pure error
        else do
          tiplock
          v ← tip_read dev Reg.busy
          let busybits = if truthy r_flag then bit_and v (not32 Macro.busy_sourcemask) else v
          tip_write Reg.busy (bit_or busybits sourcemask)
          tipunlock
          pure ok

  pub tip_set_trigger_lock : ℤ → M ℤ
  tip_set_trigger_lock enable = do
    g ← globals
    if not g.opened then pure error else if not (truthy g.master) then pure error else do
      tiplock
      v ← tip_read dev Reg.busy
      if truthy enable
          then tip_write Reg.busy (bit_or v Macro.busy_trigger_lock)
          else tip_write Reg.busy (bit_and v (not32 Macro.busy_trigger_lock))
      tipunlock
      pure ok

  pub tip_get_trigger_lock : M ℤ
  tip_get_trigger_lock = do
    g ← globals
    if not g.opened then pure error else if not (truthy g.master) then pure error else do
      tiplock
      v ← tip_read dev Reg.busy
      tipunlock
      pure (to_int (bit_and v Macro.busy_trigger_lock / 2 ^ 6))

  pub tip_reset_slave_config : M ℤ
  tip_reset_slave_config = do
    g ← globals
    if not g.opened then pure error else if not (truthy g.master) then pure error else do
      tiplock
      update λ g. record g { slave_mask = 0 }
      v ← tip_read dev Reg.busy
      tip_write Reg.busy (bit_and v (not32 Macro.busy_hfbr_mask))
      tipunlock
      pure ok

  pub tip_add_slave : ℕ → M ℤ
  tip_add_slave fiber = do
    g ← globals
    if not g.opened
        then pure error
        else if not (truthy g.master)
        then pure error
        else if not (fiber == 1)
        then pure error
        else do
          update λ g. record g { slave_mask = bit_or g.slave_mask (2 ^ (fiber - 1)) }
          busy ← tip_set_busy_source (Macro.busy_hfbr1 * 2 ^ (fiber - 1)) (pos 0)
          if not (equals busy 0) then pure error else do
            enabled ← tip_enable_fiber fiber
            if not (equals enabled 0) then pure error else pure ok

  -- The clock is switched and its managers are reset; an external clock is looked at after that.
  switch_clock : ℕ → ℕ → M ℤ
  switch_clock source clkset = do
    tiplock
    tip_write Reg.clock clkset
    usleep 10
    tip_write Reg.reset Macro.reset_clk250
    usleep 10
    tip_write Reg.reset Macro.reset_clk125
    usleep 10
    if source == 1
        then (do
          tip_write Reg.running_mode Macro.runningmode_enable
          usleep 10
          v ← tip_read dev Reg.clock
          let clkread = bit_and v Macro.clock_mask
          tip_write Reg.running_mode Macro.runningmode_disable
          tipunlock
          pure (if clkread == clkset then ok else error))
        else (do tipunlock; pure ok)

  pub tip_set_clock_source : ℕ → M ℤ
  unfolding switch_clock
  tip_set_clock_source source = do
    g ← globals
    if not g.opened
        then pure error
        else if source == 0
        then switch_clock source Macro.clock_internal
        else if source == 1
        then switch_clock source Macro.clock_hfbr1
        else pure error

  unfoldable pub tip_get_clock_source : M ℤ
  tip_get_clock_source = do
    g ← globals
    if not g.opened
        then pure error
        else do tiplock; v ← tip_read dev Reg.clock; tipunlock; pure (to_int (bit_and v 3))
