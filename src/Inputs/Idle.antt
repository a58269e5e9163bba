-- ===== src/Inputs/Idle.antt =====
-- The calls on the event format and the front panel use the mutex as they should.
use tipcie.Prelude.{ℕ, ℤ, arith}
use tipcie.Machine.{Device}
use tipcie.Machine.Lock.{KeepsIdle}
use tipcie.Inputs.{
  tip_enable_ts_input, tip_set_output_port, tip_disable_ts_input, tip_set_event_format,
  tip_set_fp_input_readout,
}

module _ (dev : Device) where
  pub tip_enable_ts_input-KeepsIdle : (a : ℕ) → KeepsIdle (tip_enable_ts_input a)
  unfolding tip_enable_ts_input
  tip_enable_ts_input-KeepsIdle a w h = ground arith

  pub tip_set_output_port-KeepsIdle :
      (a : ℕ) (b : ℕ) (c : ℕ) (d : ℕ) → KeepsIdle (tip_set_output_port a b c d)
  unfolding tip_set_output_port
  tip_set_output_port-KeepsIdle a b c d w h = ground arith

  pub tip_disable_ts_input-KeepsIdle : (a : ℕ) → KeepsIdle (tip_disable_ts_input dev a)
  unfolding tip_disable_ts_input
  tip_disable_ts_input-KeepsIdle a w h = ground arith

  pub tip_set_event_format-KeepsIdle : (a : ℤ) → KeepsIdle (tip_set_event_format dev a)
  unfolding tip_set_event_format
  tip_set_event_format-KeepsIdle a w h = ground arith

  pub tip_set_fp_input_readout-KeepsIdle : (a : ℤ) → KeepsIdle (tip_set_fp_input_readout dev a)
  unfolding tip_set_fp_input_readout
  tip_set_fp_input_readout-KeepsIdle a w h = ground arith
