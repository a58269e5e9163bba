-- ===== src/Holdoff/Idle.antt =====
-- The calls on the trigger rules use the mutex as they should.
use tipcie.Prelude.{ℕ, ℤ, arith}
use tipcie.Machine.{Device}
use tipcie.Machine.Lock.{KeepsIdle}
use tipcie.Holdoff.{
  tip_set_trigger_holdoff, tip_get_trigger_holdoff, tip_set_trigger_holdoff_min,
  tip_get_trigger_holdoff_min,
}

module _ (dev : Device) where
  pub tip_set_trigger_holdoff-KeepsIdle :
      (a : ℤ) (b : ℕ) (c : ℤ) → KeepsIdle (tip_set_trigger_holdoff dev a b c)
  unfolding tip_set_trigger_holdoff
  tip_set_trigger_holdoff-KeepsIdle a b c w h = ground arith

  pub tip_get_trigger_holdoff-KeepsIdle : (a : ℤ) → KeepsIdle (tip_get_trigger_holdoff dev a)
  unfolding tip_get_trigger_holdoff
  tip_get_trigger_holdoff-KeepsIdle a w h = ground arith

  pub tip_set_trigger_holdoff_min-KeepsIdle :
      (a : ℤ) (b : ℕ) → KeepsIdle (tip_set_trigger_holdoff_min dev a b)
  unfolding tip_set_trigger_holdoff_min
  tip_set_trigger_holdoff_min-KeepsIdle a b w h = ground arith

  pub tip_get_trigger_holdoff_min-KeepsIdle :
      (a : ℤ) (b : ℤ) → KeepsIdle (tip_get_trigger_holdoff_min dev a b)
  unfolding tip_get_trigger_holdoff_min
  tip_get_trigger_holdoff_min-KeepsIdle a b w h = ground arith
