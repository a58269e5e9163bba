-- ===== src/Inputs/Closed.antt =====
-- While the library is not open, the calls on the event format and the front panel do not touch the card.
use tipcie.Prelude.{ℕ, ℤ, false, ◌≡◌, refl}
use tipcie.Machine.{Device, World}
use tipcie.Machine.Touch.{touches}
use tipcie.Inputs.{
  tip_enable_ts_input, tip_set_output_port, tip_disable_ts_input, tip_set_event_format,
  tip_set_fp_input_readout,
}

module _ (dev : Device) where
  pub tip_enable_ts_input_untouched :
      (a : ℕ) (w : World)
      → w.lib.opened ≡ false
      → touches (tip_enable_ts_input a w).1.log ≡ touches w.log
  unfolding tip_enable_ts_input
  tip_enable_ts_input_untouched a w closed = rw closed refl

  pub tip_set_output_port_untouched :
      (a : ℕ) (b : ℕ) (c : ℕ) (d : ℕ) (w : World)
      → w.lib.opened ≡ false
      → touches (tip_set_output_port a b c d w).1.log ≡ touches w.log
  unfolding tip_set_output_port
  tip_set_output_port_untouched a b c d w closed = rw closed refl

  pub tip_disable_ts_input_untouched :
      (a : ℕ) (w : World)
      → w.lib.opened ≡ false
      → touches (tip_disable_ts_input dev a w).1.log ≡ touches w.log
  unfolding tip_disable_ts_input
  tip_disable_ts_input_untouched a w closed = rw closed refl

  pub tip_set_event_format_untouched :
      (a : ℤ) (w : World)
      → w.lib.opened ≡ false
      → touches (tip_set_event_format dev a w).1.log ≡ touches w.log
  unfolding tip_set_event_format
  tip_set_event_format_untouched a w closed = rw closed refl

  pub tip_set_fp_input_readout_untouched :
      (a : ℤ) (w : World)
      → w.lib.opened ≡ false
      → touches (tip_set_fp_input_readout dev a w).1.log ≡ touches w.log
  unfolding tip_set_fp_input_readout
  tip_set_fp_input_readout_untouched a w closed = rw closed refl
