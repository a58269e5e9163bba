-- ===== src/Scalers/Closed.antt =====
-- While the library is not open, the calls on the counters do not touch the card.
use tipcie.Prelude.{ℕ, ℤ, false, ◌≡◌, refl}
use tipcie.Machine.{Device, World}
use tipcie.Machine.Touch.{touches}
use tipcie.Scalers.{
  tip_latch_timers, tip_get_live_time, tip_get_busy_time, tip_live, tip_get_tsscaler,
}

module _ (dev : Device) where
  pub tip_latch_timers_untouched :
      (w : World) → w.lib.opened ≡ false → touches (tip_latch_timers w).1.log ≡ touches w.log
  unfolding tip_latch_timers
  tip_latch_timers_untouched w closed = rw closed refl

  pub tip_get_live_time_untouched :
      (w : World) → w.lib.opened ≡ false → touches (tip_get_live_time dev w).1.log ≡ touches w.log
  unfolding tip_get_live_time
  tip_get_live_time_untouched w closed = rw closed refl

  pub tip_get_busy_time_untouched :
      (w : World) → w.lib.opened ≡ false → touches (tip_get_busy_time dev w).1.log ≡ touches w.log
  unfolding tip_get_busy_time
  tip_get_busy_time_untouched w closed = rw closed refl

  pub tip_live_untouched :
      (a : ℕ → ℕ → ℤ) (b : ℤ) (w : World)
      → w.lib.opened ≡ false
      → touches (tip_live dev a b w).1.log ≡ touches w.log
  unfolding tip_live
  tip_live_untouched a b w closed = rw closed refl

  pub tip_get_tsscaler_untouched :
      (a : ℤ) (b : ℤ) (w : World)
      → w.lib.opened ≡ false
      → touches (tip_get_tsscaler dev a b w).1.log ≡ touches w.log
  unfolding tip_get_tsscaler
  tip_get_tsscaler_untouched a b w closed = rw closed refl
