-- ===== src/Tests/Control.antt =====
-- The theorems on the mutex, on opening the card, on interrupts and on the fiber's latency.
use tipcie.Prelude.{ℕ, ◌==◌, if◌then◌else◌, ok, error, true, false, pos, [], ◌∷◌, ◌≡◌, refl}
use tipcie.Machine.{Device, read, write, sleep, unlock, pure}
use tipcie.Machine.Reg
use tipcie.Machine.Macro
use tipcie.Machine.Lock.{IsIdle}
use tipcie.Calls.{Call, run, run_all}
use tipcie.Calls.Closed.{run_untouched}
use tipcie.Machine.Touch.{touches}
use tipcie.Calls.Idle.{run_all-KeepsIdle}
use tipcie.Interrupt.{Routines}
use tipcie.Interrupt.Polling.{AreSafe}
use tipcie.Fiber.{tip_get_clock_source}
use tipcie.Latency.{fiber_meas, measure}
use tipcie.Latency.Result.{second, fiber_meas-result}
use tipcie.Setup.{Os, tip_open, tip_close}
use tipcie.Setup.Reopen.{tip_open-after_close}
use tipcie.Init.{tip_init}
use tipcie.Init.Board.{tip_init-no_board}
use tipcie.Tests.{memory, ready, closed}

abbrev pub quiet : Routines
quiet = record { int_routine = λ arg. pure tt; ack_routine = λ arg. pure tt }

pub quiet-AreSafe : AreSafe quiet
quiet-AreSafe = record { int_routine_idle = λ arg w h. h; ack_routine_held = λ arg w h. h }

abbrev linux : Os
linux = record { open_fd = pos 3; has_bars = true; maps_registers = true; maps_jtag = true }

run_all-KeepsIdle_example :
    IsIdle
      (run_all memory quiet
        (Call.set_crate_id 5 ∷ Call.int_enable (pos 1) ∷ Call.poll 3 ∷ Call.int_disable ∷ [])
        ready).1
run_all-KeepsIdle_example =
    run_all-KeepsIdle memory quiet quiet-AreSafe
      (Call.set_crate_id 5 ∷ Call.int_enable (pos 1) ∷ Call.poll 3 ∷ Call.int_disable ∷ []) ready
      (record { free = refl; clean = refl })

tip_open-after_close_example :
    let shut = tip_close (tip_open linux closed).1 in
    (shut.0 ≡ ok) × (tip_open linux shut.1 ≡ (error, shut.1)) × (shut.1.lib.opened ≡ true)
unfolding tip_open
tip_open-after_close_example = tip_open-after_close linux linux closed refl refl

tip_init-no_board_example :
    let r = tip_init memory linux 2 0 ready in
    (r.0 ≡ error) × (r.1.lib.opened ≡ false) × (r.1.log ≡ read Reg.board_id 0x1234_5678 ∷ [])
tip_init-no_board_example = tip_init-no_board memory linux 2 0 ready refl refl

-- A card that runs on the clock of fiber 1 and measures the same latency each time.
abbrev fiber_card : Device
fiber_card = record {
  answer = λ l r. if r == Reg.clock then Macro.clock_hfbr1 else 0x0500_0000;
  jtag_answer = λ l r. 0;
  dma_answer = λ l i. 0;
}

fiber_meas-result_example :
    let r = fiber_meas fiber_card ready in
    (r.0 ≡ ok)
    × (r.1.lib.fiber_latency_measurement ≡ 5)
    × ((v : ℕ) × (r.1.log
          ≡ unlock
            ∷ read Reg.fiber_sync_delay v
            ∷ sleep 10
            ∷ write Reg.fiber_sync_delay 0xfbfbfb00
            ∷ sleep 100
            ∷ (second fiber_card ready).1.log))
unfolding tip_get_clock_source measure
fiber_meas-result_example = fiber_meas-result fiber_card ready

run_untouched_example :
    touches (run memory quiet (Call.load_trigger_table (pos 2)) closed).1.log ≡ 0
run_untouched_example =
    run_untouched memory quiet (Call.load_trigger_table (pos 2)) closed refl refl
