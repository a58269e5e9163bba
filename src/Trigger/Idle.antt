-- ===== src/Trigger/Idle.antt =====
-- The calls on the trigger sources use the mutex as they should.
use tipcie.Prelude.{ℤ, arith}
use tipcie.Machine.{Device}
use tipcie.Machine.Lock.{KeepsIdle}
use tipcie.Trigger.{
  tip_set_trigger_source, tip_set_trigger_source_mask, tip_enable_trigger_source,
  tip_fill_to_end_block, tip_disable_trigger_source, tip_trigger_ready_reset,
  tip_force_send_trigger_source_enable,
}

module _ (dev : Device) where
  pub tip_set_trigger_source-KeepsIdle : (a : ℤ) → KeepsIdle (tip_set_trigger_source a)
  unfolding tip_set_trigger_source
  tip_set_trigger_source-KeepsIdle a w h = ground arith

  pub tip_set_trigger_source_mask-KeepsIdle : (a : ℤ) → KeepsIdle (tip_set_trigger_source_mask a)
  unfolding tip_set_trigger_source_mask
  tip_set_trigger_source_mask-KeepsIdle a w h = ground arith

  pub tip_enable_trigger_source-KeepsIdle : KeepsIdle tip_enable_trigger_source
  unfolding tip_enable_trigger_source
  tip_enable_trigger_source-KeepsIdle w h = ground arith

  pub tip_fill_to_end_block-KeepsIdle : KeepsIdle tip_fill_to_end_block
  unfolding tip_fill_to_end_block
  tip_fill_to_end_block-KeepsIdle w h = ground arith

  pub tip_disable_trigger_source-KeepsIdle : (a : ℤ) → KeepsIdle (tip_disable_trigger_source a)
  unfolding tip_disable_trigger_source tip_fill_to_end_block
  tip_disable_trigger_source-KeepsIdle a w h = ground arith

  pub tip_trigger_ready_reset-KeepsIdle : KeepsIdle tip_trigger_ready_reset
  unfolding tip_trigger_ready_reset
  tip_trigger_ready_reset-KeepsIdle w h = ground arith

  pub tip_force_send_trigger_source_enable-KeepsIdle :
      KeepsIdle (tip_force_send_trigger_source_enable dev)
  unfolding tip_force_send_trigger_source_enable
  tip_force_send_trigger_source_enable-KeepsIdle w h = ground arith
