-- ===== src/Delays/Idle.antt =====
-- The calls on the delays of the TS inputs use the mutex as they should.
use tipcie.Prelude.{ℤ, arith}
use tipcie.Machine.{Device}
use tipcie.Machine.Lock.{KeepsIdle}
use tipcie.Delays.{tip_set_tsinput_delay, tip_get_tsinput_delay}

module _ (dev : Device) where
  pub tip_set_tsinput_delay-KeepsIdle : (a : ℤ) (b : ℤ) → KeepsIdle (tip_set_tsinput_delay dev a b)
  unfolding tip_set_tsinput_delay
  tip_set_tsinput_delay-KeepsIdle a b w h = ground arith

  pub tip_get_tsinput_delay-KeepsIdle : (a : ℤ) → KeepsIdle (tip_get_tsinput_delay dev a)
  unfolding tip_get_tsinput_delay
  tip_get_tsinput_delay-KeepsIdle a w h = ground arith
