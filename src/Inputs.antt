-- ===== src/Inputs.antt =====
-- TIpcieLib.c: what is written into each event, the front panel's inputs and outputs.
pub mod Idle
pub mod Closed
pub mod Registers
use tipcie.Prelude.{
  ℕ, not, ◌||◌, bit_and, bit_or, ℤ, ok, error, above, negative, equals, truthy, ltb, ◌==◌,
  if◌then◌else◌,
}
use tipcie.Bits.Fields.{not32}
use tipcie.Machine.{Device, M, pure, ◌>>=◌, ◌>>◌, globals, tiplock, tipunlock, tip_read, tip_write}
use tipcie.Machine.Reg
use tipcie.Machine.Macro

pub tip_enable_ts_input : ℕ → M ℤ
tip_enable_ts_input inp_mask = do
  g ← globals
  if not g.opened
      then pure error
      else if ltb 0x3f inp_mask
      then pure error
      else do tiplock; tip_write Reg.ts_input inp_mask; tipunlock; pure ok

pub tip_set_output_port : ℕ → ℕ → ℕ → ℕ → M ℤ
tip_set_output_port set1 set2 set3 set4 = do
  g ← globals
  if not g.opened then pure error else do
    let bits1 : ℕ = if set1 == 0 then 0 else 1
    let bits2 = if set2 == 0 then bits1 else bit_or bits1 2
    let bits3 = if set3 == 0 then bits2 else bit_or bits2 4
    let bits = if set4 == 0 then bits3 else bit_or bits3 8
    tiplock
    tip_write Reg.output bits
    tipunlock
    pure ok

-- The words that formats 0 to 3 add to an event.
format_bits : ℤ → ℕ
format_bits format =
    if equals format 1
    then Macro.dataformat_timing_word
    else if equals format 2
    then Macro.dataformat_higherbits_word
    else if equals format 3
    then bit_or Macro.dataformat_timing_word Macro.dataformat_higherbits_word
    else 0

module _ (dev : Device) where
  pub tip_disable_ts_input : ℕ → M ℤ
  tip_disable_ts_input inp_mask = do
    g ← globals
    if not g.opened then pure error else if ltb 0x3f inp_mask then pure error else do
      tiplock
      v ← tip_read dev Reg.ts_input
      tip_write Reg.ts_input (bit_and v (not32 inp_mask))
      tipunlock
      pure ok

  pub tip_set_event_format : ℤ → M ℤ
  unfolding format_bits
  tip_set_event_format format = do
    g ← globals
    if not g.opened
        then pure error
        else if above format 3 || negative format
        then pure error
        else do
          tiplock
          v ← tip_read dev Reg.data_format
          let formatset =
              bit_and v
                (not32 (bit_or Macro.dataformat_timing_word Macro.dataformat_higherbits_word))
          tip_write Reg.data_format (bit_or formatset (format_bits format))
          tipunlock
          pure ok

  pub tip_set_fp_input_readout : ℤ → M ℤ
  tip_set_fp_input_readout enable = do
    g ← globals
    if not g.opened then pure error else do
      tiplock
      v ← tip_read dev Reg.data_format
      if truthy enable
          then tip_write Reg.data_format (bit_or v Macro.dataformat_fpinput_readout)
          else tip_write Reg.data_format (bit_and v (not32 Macro.dataformat_fpinput_readout))
      tipunlock
      pure ok
