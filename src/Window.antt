-- ===== src/Window.antt =====
-- TIpcieLib.c: the widths of the trigger window and the inhibit window, the delay of trigger 2 after
-- trigger 1 and the latch on the level of the inputs, which share one register.
pub mod Idle
pub mod Closed
pub mod Registers
use tipcie.Prelude.{
  ◌*◌, ◌/◌, ◌^◌, not, ◌||◌, bit_and, bit_or, ℤ, pos, ok, error, above, to_u32, to_int,
  if◌then◌else◌,
}
use tipcie.Bits.Fields.{not32}
use tipcie.Machine.{Device, M, pure, ◌>>=◌, ◌>>◌, globals, tiplock, tipunlock, tip_read, tip_write}
use tipcie.Machine.Reg
use tipcie.Machine.Macro

module _ (dev : Device) where
  pub tip_set_trigger_window : ℤ → M ℤ
  tip_set_trigger_window window_width = do
    g ← globals
    if not g.opened
        then pure error
        else if not (above window_width 0) || above window_width Macro.triggerwindow_coinc_mask
        then pure error
        else do
          tiplock
          v ← tip_read dev Reg.trigger_window
          tip_write Reg.trigger_window
              (bit_or (bit_and v (not32 Macro.triggerwindow_coinc_mask)) (to_u32 window_width))
          tipunlock
          pure ok

  pub tip_get_trigger_window : M ℤ
  tip_get_trigger_window = do
    g ← globals
    if not g.opened then pure error else do
      tiplock
      v ← tip_read dev Reg.trigger_window
      tipunlock
      pure (to_int (bit_and v Macro.triggerwindow_coinc_mask))

  pub tip_set_trigger_inhibit_window : ℤ → M ℤ
  tip_set_trigger_inhibit_window window_width = do
    g ← globals
    if not g.opened
        then pure error
        else if not (above window_width 0)
            || above window_width (Macro.triggerwindow_inhibit_mask / 2 ^ 8)
        then pure error
        else do
          tiplock
          v ← tip_read dev Reg.trigger_window
          tip_write Reg.trigger_window (
              bit_or (bit_and v (not32 Macro.triggerwindow_inhibit_mask))
                (to_u32 window_width * 2 ^ 8))
          tipunlock
          pure ok

  pub tip_get_trigger_inhibit_window : M ℤ
  tip_get_trigger_inhibit_window = do
    g ← globals
    if not g.opened then pure error else do
      tiplock
      v ← tip_read dev Reg.trigger_window
      tipunlock
      pure (to_int (bit_and v Macro.triggerwindow_inhibit_mask / 2 ^ 8))

  -- A negative delay passes the test.
  pub tip_set_trig21_delay : ℤ → M ℤ
  tip_set_trig21_delay delay = do
    g ← globals
    if not g.opened then pure error else if above delay 0x1ff then pure error else do
      tiplock
      v ← tip_read dev Reg.trigger_window
      tip_write Reg.trigger_window
          (bit_or (bit_and v (not32 Macro.triggerwindow_trig21_mask)) (to_u32 delay * 2 ^ 16))
      tipunlock
      pure ok

  pub tip_get_trig21_delay : M ℤ
  tip_get_trig21_delay = do
    g ← globals
    if not g.opened then pure error else do
      tiplock
      v ← tip_read dev Reg.trigger_window
      tipunlock
      pure (to_int (bit_and v Macro.triggerwindow_trig21_mask / 2 ^ 16))

  pub tip_set_trigger_latch_on_level : ℤ → M ℤ
  tip_set_trigger_latch_on_level enable = do
    g ← globals
    if not g.opened then pure error else do
      let enable1 = if not (above enable 0) then pos 0 else enable
      tiplock
      v ← tip_read dev Reg.trigger_window
      tip_write Reg.trigger_window
          (bit_or (bit_and v (not32 Macro.triggerwindow_level_latch)) (to_u32 enable1 * 2 ^ 31))
      tipunlock
      pure ok

  pub tip_get_trigger_latch_on_level : M ℤ
  tip_get_trigger_latch_on_level = do
    g ← globals
    if not g.opened then pure error else do
      tiplock
      v ← tip_read dev Reg.trigger_window
      tipunlock
      pure (to_int (bit_and v Macro.triggerwindow_level_latch / 2 ^ 31))
