-- ===== src/Scalers.antt =====
-- TIpcieLib.c: the counters of live and busy time and of the TS inputs.
pub mod Idle
pub mod Closed
pub mod Live
use tipcie.Prelude.{
  ℕ, ◌+◌, ◌-◌, ◌*◌, ◌%◌, ◌^◌, not, ◌||◌, ◌&&◌, bit_or, ℤ, pos, ok, error, above, negative, equals,
  to_u32, ltb, if◌then◌else◌,
}
use tipcie.Machine.{
  Device, M, pure, ◌>>=◌, ◌>>◌, globals, update, tiplock, tipunlock, tip_read, tip_write,
}
use tipcie.Machine.Reg
use tipcie.Machine.Macro

-- ERROR as an `unsigned int`.
abbrev error_u32 : ℕ
error_u32 = to_u32 error

-- The differential count, with the wrap-around of `unsigned int`.
since : ℕ → ℕ → ℕ
since new old = (new + 2 ^ 32 - old) % 2 ^ 32

-- The counts `live` and `total`: those since the last call, or all.
live_counts : ℤ → (new_live new_total old_live old_total : ℕ) → ℕ × ℕ
unfolding since
live_counts sflag new_live new_total old_live old_total =
    if equals sflag 0 && ltb old_total new_total
    then (since new_live old_live, since new_total old_total)
    else (new_live, new_total)

unfoldable pub tip_latch_timers : M ℤ
tip_latch_timers = do
  g ← globals
  if not g.opened
      then pure error
      else do tiplock; tip_write Reg.reset Macro.reset_scalers_latch; tipunlock; pure ok

module _ (dev : Device) where
  pub tip_get_live_time : M ℕ
  tip_get_live_time = do
    g ← globals
    if not g.opened
        then pure error_u32
        else do tiplock; v ← tip_read dev Reg.livetime; tipunlock; pure v

  pub tip_get_busy_time : M ℕ
  tip_get_busy_time = do
    g ← globals
    if not g.opened
        then pure error_u32
        else do tiplock; v ← tip_read dev Reg.busytime; tipunlock; pure v

  -- `per_mille live total` is what the machine's `float` arithmetic makes of
  -- `(int) (1000 * ((float) live / (float) total))`.
  pub tip_live : (per_mille : ℕ → ℕ → ℤ) → ℤ → M ℤ
  unfolding live_counts
  tip_live per_mille sflag = do
    g ← globals
    if not g.opened then pure error else do
      tiplock
      tip_write Reg.reset Macro.reset_scalers_latch
      new_live ← tip_read dev Reg.livetime
      new_busy ← tip_read dev Reg.busytime
      let new_total = (new_live + new_busy) % 2 ^ 32
      let (live, total) = live_counts sflag new_live new_total g.old_live g.old_total
      update λ h. record h { old_live = new_live; old_total = new_total }
      let rval = if ltb 0 total then per_mille live total else pos 0
      tipunlock
      pure rval

  pub tip_get_tsscaler : ℤ → ℤ → M ℕ
  tip_get_tsscaler input latch = do
    g ← globals
    if not g.opened
        then pure error_u32
        else if not (above input 0) || above input 6
        then pure error_u32
        else if negative latch || above latch 2
        then pure error_u32
        else do
          tiplock
          if equals latch 1
              then tip_write Reg.reset Macro.reset_scalers_latch
              else if equals latch 2
              then tip_write Reg.reset (bit_or Macro.reset_scalers_latch Macro.reset_scalers_reset)
              else pure tt
          v ← tip_read dev (Reg.ts_scaler + 4 * (to_u32 input - 1))
          tipunlock
          pure v
