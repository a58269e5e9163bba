-- ===== src/Window/Idle.antt =====
-- The calls on the trigger windows use the mutex as they should.
use tipcie.Prelude.{ℤ, arith}
use tipcie.Machine.{Device}
use tipcie.Machine.Lock.{KeepsIdle}
use tipcie.Window.{
  tip_set_trigger_window, tip_get_trigger_window, tip_set_trigger_inhibit_window,
  tip_get_trigger_inhibit_window, tip_set_trig21_delay, tip_get_trig21_delay,
  tip_set_trigger_latch_on_level, tip_get_trigger_latch_on_level,
}

module _ (dev : Device) where
  pub tip_set_trigger_window-KeepsIdle : (a : ℤ) → KeepsIdle (tip_set_trigger_window dev a)
  unfolding tip_set_trigger_window
  tip_set_trigger_window-KeepsIdle a w h = ground arith

  pub tip_get_trigger_window-KeepsIdle : KeepsIdle (tip_get_trigger_window dev)
  unfolding tip_get_trigger_window
  tip_get_trigger_window-KeepsIdle w h = ground arith

  pub tip_set_trigger_inhibit_window-KeepsIdle :
      (a : ℤ) → KeepsIdle (tip_set_trigger_inhibit_window dev a)
  unfolding tip_set_trigger_inhibit_window
  tip_set_trigger_inhibit_window-KeepsIdle a w h = ground arith

  pub tip_get_trigger_inhibit_window-KeepsIdle : KeepsIdle (tip_get_trigger_inhibit_window dev)
  unfolding tip_get_trigger_inhibit_window
  tip_get_trigger_inhibit_window-KeepsIdle w h = ground arith

  pub tip_set_trig21_delay-KeepsIdle : (a : ℤ) → KeepsIdle (tip_set_trig21_delay dev a)
  unfolding tip_set_trig21_delay
  tip_set_trig21_delay-KeepsIdle a w h = ground arith

  pub tip_get_trig21_delay-KeepsIdle : KeepsIdle (tip_get_trig21_delay dev)
  unfolding tip_get_trig21_delay
  tip_get_trig21_delay-KeepsIdle w h = ground arith

  pub tip_set_trigger_latch_on_level-KeepsIdle :
      (a : ℤ) → KeepsIdle (tip_set_trigger_latch_on_level dev a)
  unfolding tip_set_trigger_latch_on_level
  tip_set_trigger_latch_on_level-KeepsIdle a w h = ground arith

  pub tip_get_trigger_latch_on_level-KeepsIdle : KeepsIdle (tip_get_trigger_latch_on_level dev)
  unfolding tip_get_trigger_latch_on_level
  tip_get_trigger_latch_on_level-KeepsIdle w h = ground arith
