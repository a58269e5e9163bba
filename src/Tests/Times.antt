-- ===== src/Tests/Times.antt =====
-- The theorems on counters, histories, the FIFO of a fiber, polling and threads.
use native.Mathlib.Nat.{div-le_of_le-mul}
use tipcie.Prelude.{
  ℕ, ℤ, ◌*◌, ◌/◌, ◌==◌, if◌then◌else◌, true, some, pos, ◌∷◌, [], ◌≡◌, refl, arith, Bool-cases, inl,
  inr, false, Bool,
}
use tipcie.Machine.{
  Device, World, Log, Event, lock, unlock, read, write, sleep, jtag_read, jtag_write, dma_read,
  tip_read, pure, ◌>>◌,
}
use tipcie.Machine.Reg
use tipcie.Machine.Macro
use tipcie.Scalers.{tip_live, tip_latch_timers}
use tipcie.Scalers.Live.{IsPerMille, IsShare, tip_live-IsPerMille}
use tipcie.History.{tip_print_sync_history}
use tipcie.History.Loop.{IsBetween, tip_print_sync_history-IsBetween}
use tipcie.FiberFifo.{tip_read_fiber_fifo}
use tipcie.FiberFifo.Bound.{IsFifoResult, tip_read_fiber_fifo-IsFifoResult}
use tipcie.Interrupt.{Routines}
use tipcie.Calls.{Call, run}
use tipcie.Threads.{System, Reach, Step, idle_system, append_log}
use tipcie.Threads.Exclusion.{IsTail, Program, full_log, Reach-exclusive}
use tipcie.Tests.{memory, ready, zeros}
use tipcie.Tests.Control.{quiet, quiet-AreSafe}

-- A card that has been live for 300 and busy for 100 ticks.
abbrev timed : Device
timed = record {
  answer = λ l r. if r == Reg.livetime then 300 else if r == Reg.busytime then 100 else 0;
  jtag_answer = λ l r. 0;
  dma_answer = λ l i. 0;
}

abbrev whole : ℕ → ℕ → ℤ
whole live total = pos (1000 * live / total)

whole-IsShare : IsShare whole
unfolding IsPerMille
whole-IsShare live total part some_time = div-le_of_le-mul total (omega arith)

tip_live-IsPerMille_example :
    let r = tip_live timed whole (pos 0) ready in
    IsPerMille r.0 × (r.1.lib.old_live ≡ 300) × (r.1.lib.old_total ≡ 400)
tip_live-IsPerMille_example =
    tip_live-IsPerMille timed whole whole-IsShare (pos 0) 0 ready refl refl (omega arith)
      (omega arith) (omega arith)

tip_print_sync_history-IsBetween_example : IsBetween 1 1025 (tip_print_sync_history memory ready).0
tip_print_sync_history-IsBetween_example = tip_print_sync_history-IsBetween memory ready

tip_read_fiber_fifo-IsFifoResult_example :
    IsFifoResult true 4 zeros (tip_read_fiber_fifo memory (pos 5) (some zeros) (pos 4) ready).0
tip_read_fiber_fifo-IsFifoResult_example =
    tip_read_fiber_fifo-IsFifoResult memory (pos 5) zeros 4 ready refl (omega arith)

-- A routine that reads one word of the FIFO.
abbrev reading : Routines
reading = record {
  int_routine = λ arg. tip_read memory Reg.fifo >> pure tt;
  ack_routine = λ arg. pure tt;
}

abbrev is_fifo : Event → Bool
is_fifo (read r v) = r == Reg.fifo
is_fifo (write r v) = false
is_fifo (jtag_read r v) = false
is_fifo (jtag_write r v) = false
is_fifo (dma_read r v) = false
is_fifo lock = false
is_fifo unlock = false
is_fifo (sleep n) = false

abbrev polling : World
polling = record ready {
  lib = record (ready.lib) { int_running = true; do_ack = true; int_routine = true };
}

-- Every thread latches the timers; the first has locked the mutex and is about to write.
abbrev latching : Program
latching = record {
  card = memory;
  user = quiet;
  safe = quiet-AreSafe;
  calls = (ready.lib, Call.latch_timers) ∷ [];
}

abbrev first_inside : System
first_inside = record { owner = some 0; logs = append_log 0 lock (λ t. []) }

abbrev latch : Event
latch = write Reg.reset Macro.reset_scalers_latch

abbrev all_of_it : Log
all_of_it = unlock ∷ latch ∷ lock ∷ []

full_log-latching : full_log latching ≡ all_of_it
unfolding run tip_latch_timers
full_log-latching = refl

latch-next : IsTail (latch ∷ lock ∷ []) all_of_it
latch-next = IsTail.later unlock (IsTail.whole (latch ∷ lock ∷ []))

first_inside-tail : (t : ℕ) → IsTail (first_inside.logs t) all_of_it
first_inside-tail t =
    let locked : IsTail (lock ∷ []) all_of_it =
      IsTail.later unlock (IsTail.later latch (IsTail.whole (lock ∷ []))) in
    let nothing : IsTail [] all_of_it =
      IsTail.later unlock (IsTail.later latch (IsTail.later lock (IsTail.whole []))) in
    elim (Bool-cases (t == 0)) [ inl first ↦ rw first locked | inr other ↦ rw other nothing ]

first_inside-tails : (t : ℕ) → IsTail (first_inside.logs t) (full_log latching)
first_inside-tails t = rw full_log-latching (first_inside-tail t)

next-tail : IsTail (latch ∷ first_inside.logs 0) (full_log latching)
next-tail = rw full_log-latching latch-next

Reach-exclusive_example : ◌≡◌ {A = ℕ} 0 0 × (first_inside.owner ≡ some 0)
Reach-exclusive_example =
    Reach-exclusive (λ t. latching) first_inside
      (Reach.next Reach.here (Step.takes idle_system 0 refl)) first_inside-tails 0 0 latch latch
      refl refl next-tail next-tail
