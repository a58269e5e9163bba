-- ===== src/Scalers/Idle.antt =====
-- The calls on the counters use the mutex as they should.
use tipcie.Prelude.{ℕ, ℤ, arith}
use tipcie.Machine.{Device}
use tipcie.Machine.Lock.{KeepsIdle}
use tipcie.Scalers.{
  tip_latch_timers, tip_get_live_time, tip_get_busy_time, tip_live, tip_get_tsscaler,
}

module _ (dev : Device) where
  pub tip_latch_timers-KeepsIdle : KeepsIdle tip_latch_timers
  unfolding tip_latch_timers
  tip_latch_timers-KeepsIdle w h = ground arith

  pub tip_get_live_time-KeepsIdle : KeepsIdle (tip_get_live_time dev)
  unfolding tip_get_live_time
  tip_get_live_time-KeepsIdle w h = ground arith

  pub tip_get_busy_time-KeepsIdle : KeepsIdle (tip_get_busy_time dev)
  unfolding tip_get_busy_time
  tip_get_busy_time-KeepsIdle w h = ground arith

  pub tip_live-KeepsIdle : (per_mille : ℕ → ℕ → ℤ) (a : ℤ) → KeepsIdle (tip_live dev per_mille a)
  unfolding tip_live
  tip_live-KeepsIdle per_mille a w h = ground arith

  pub tip_get_tsscaler-KeepsIdle : (a : ℤ) (b : ℤ) → KeepsIdle (tip_get_tsscaler dev a b)
  unfolding tip_get_tsscaler
  tip_get_tsscaler-KeepsIdle a b w h = ground arith
