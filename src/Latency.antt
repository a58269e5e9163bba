-- ===== src/Latency.antt =====
-- FiberMeas of TIpcieLib.c: the delay of the fiber is measured twice and set off.
pub mod Idle
pub mod Result
use tipcie.Prelude.{
  ℕ, ◌+◌, ◌-◌, ◌/◌, ◌%◌, ◌^◌, not, ◌||◌, bit_and, ℤ, ok, error, equals, to_u32, ltb, ◌==◌,
  if◌then◌else◌,
}
use tipcie.Machine.{
  Device, M, pure, ◌>>=◌, ◌>>◌, globals, update, tiplock, tipunlock, usleep, tip_read, tip_write,
}
use tipcie.Machine.Reg
use tipcie.Machine.Macro
use tipcie.Fiber.{three_bytes, tip_get_clock_source}

module _ (dev : Device) where
  -- One try: what the register says when the sync phase has been adjusted. Half of the trip there
  -- and back goes into tipFiberLatencyMeasurement.
  unfoldable pub measure : M ℕ
  measure = do
    tip_write Reg.reset Macro.reset_iodelay
    usleep 100
    tip_write Reg.reset Macro.reset_fiber_auto_align
    usleep 100
    tip_write Reg.reset Macro.reset_measure_latency
    usleep 1000
    tip_read dev Reg.fiber_latency_measurement
    tip_write Reg.reset Macro.reset_autoalign_hfbr1_sync
    usleep 100
    v ← tip_read dev Reg.fiber_latency_measurement
    update λ g. record g {
      fiber_latency_measurement = bit_and v Macro.fiberlatencymeasurement_data_mask / 2 ^ 23 / 2;
    }
    pure v

  fail : M ℤ
  fail = do update λ g. record g { fiber_latency_measurement = 0 }; pure error

  pub fiber_meas : M ℤ
  unfolding measure fail
  fiber_meas = do
    clksrc ← tip_get_clock_source dev
    if not (equals clksrc Macro.clock_hfbr1)
        then (do tiplock; tip_write Reg.fiber_sync_delay 0x1f1f_1f00; tipunlock; pure error)
        else (do
          tiplock
          measure
          one ← globals
          fiber_latency ← measure
          two ← globals
          let one_way = bit_and (fiber_latency / 2 ^ 23) 0x1ff / 2
          usleep 100
          tip_write Reg.fiber_sync_delay
              (three_bytes ((to_u32 two.fiber_latency_offset + 2 ^ 32 - one_way) % 2 ^ 32))
          usleep 10
          tip_read dev Reg.fiber_sync_delay
          tipunlock
          let first = one.fiber_latency_measurement
          let second = two.fiber_latency_measurement
          if not (first == second)
              then fail
              else if not (ltb 0 second) || ltb 0xff second
              then fail
              else pure ok)
