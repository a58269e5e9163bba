-- ===== src/Latency/Idle.antt =====
-- The calls on the fiber latency use the mutex as they should.
use tipcie.Prelude.{arith}
use tipcie.Machine.{Device}
use tipcie.Fiber.Idle.{tip_get_clock_source-KeepsIdle}
use tipcie.Machine.Lock.{KeepsIdle}
use tipcie.Latency.{fiber_meas}

module _ (dev : Device) where
  pub fiber_meas-KeepsIdle : KeepsIdle (fiber_meas dev)
  unfolding fiber_meas
  fiber_meas-KeepsIdle w h = grind (arith, tip_get_clock_source-KeepsIdle dev)
