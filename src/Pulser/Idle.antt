-- ===== src/Pulser/Idle.antt =====
-- The calls on the pulser, the pulses and the prescales use the mutex as they should.
use tipcie.Prelude.{ℕ, ℤ, arith}
use tipcie.Machine.{Device}
use tipcie.Machine.Lock.{KeepsIdle}
use tipcie.Pulser.{
  tip_soft_trig, tip_set_random_trigger, tip_disable_random_trigger, tip_set_prescale,
  tip_set_prompt_trigger_width, tip_get_prescale, tip_get_prompt_trigger_width,
  tip_set_input_prescale, tip_get_input_prescale, tip_set_trigger_pulse,
}

module _ (dev : Device) where
  pub tip_soft_trig-KeepsIdle : (a : ℤ) (b : ℕ) (c : ℕ) (d : ℤ) → KeepsIdle (tip_soft_trig a b c d)
  unfolding tip_soft_trig
  tip_soft_trig-KeepsIdle a b c d w h = ground arith

  pub tip_set_random_trigger-KeepsIdle : (a : ℤ) (b : ℤ) → KeepsIdle (tip_set_random_trigger a b)
  unfolding tip_set_random_trigger
  tip_set_random_trigger-KeepsIdle a b w h = ground arith

  pub tip_disable_random_trigger-KeepsIdle : KeepsIdle tip_disable_random_trigger
  unfolding tip_disable_random_trigger
  tip_disable_random_trigger-KeepsIdle w h = ground arith

  pub tip_set_prescale-KeepsIdle : (a : ℤ) → KeepsIdle (tip_set_prescale a)
  unfolding tip_set_prescale
  tip_set_prescale-KeepsIdle a w h = ground arith

  pub tip_set_prompt_trigger_width-KeepsIdle : (a : ℤ) → KeepsIdle (tip_set_prompt_trigger_width a)
  unfolding tip_set_prompt_trigger_width
  tip_set_prompt_trigger_width-KeepsIdle a w h = ground arith

  pub tip_get_prescale-KeepsIdle : KeepsIdle (tip_get_prescale dev)
  unfolding tip_get_prescale
  tip_get_prescale-KeepsIdle w h = ground arith

  pub tip_get_prompt_trigger_width-KeepsIdle : KeepsIdle (tip_get_prompt_trigger_width dev)
  unfolding tip_get_prompt_trigger_width
  tip_get_prompt_trigger_width-KeepsIdle w h = ground arith

  pub tip_set_input_prescale-KeepsIdle :
      (a : ℤ) (b : ℤ) → KeepsIdle (tip_set_input_prescale dev a b)
  unfolding tip_set_input_prescale
  tip_set_input_prescale-KeepsIdle a b w h = ground arith

  pub tip_get_input_prescale-KeepsIdle : (a : ℤ) → KeepsIdle (tip_get_input_prescale dev a)
  unfolding tip_get_input_prescale
  tip_get_input_prescale-KeepsIdle a w h = ground arith

  pub tip_set_trigger_pulse-KeepsIdle :
      (a : ℤ) (b : ℤ) (c : ℤ) (d : ℤ) → KeepsIdle (tip_set_trigger_pulse dev a b c d)
  unfolding tip_set_trigger_pulse
  tip_set_trigger_pulse-KeepsIdle a b c d w h = ground arith
