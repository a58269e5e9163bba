-- ===== src/Interrupt/Trace.antt =====
-- What the polling loop, and a routine that the user connects, leave in the log.
use tipcie.Prelude.{
  ℕ, suc, ◌+◌, ◌%◌, ◌^◌, Bool, true, false, not, ◌&&◌, above, ◌==◌, [], ◌∷◌, ◌≡◌, arith,
  if◌then◌else◌,
}
use tipcie.Bits.Fields.{field}
use tipcie.Machine.{
  World, Event, Log, lock, unlock, sleep, read, write, jtag_read, jtag_write, dma_read,
}
use tipcie.Machine.Reg
use tipcie.Interrupt.{Routines}

-- How many accesses of a log are of a kind.
abbrev pub count : (Event → Bool) → Log → ℕ
count kind [] = 0
count kind (e ∷ l) = if kind e then suc (count kind l) else count kind l

-- A look at the block buffer register.
abbrev pub is_look : Event → Bool
is_look (read r v) = r == Reg.block_buffer
is_look (write r v) = false
is_look (jtag_read r v) = false
is_look (jtag_write r v) = false
is_look (dma_read r v) = false
is_look lock = false
is_look unlock = false
is_look (sleep n) = false

-- One that shows blocks, of a card that is there.
abbrev pub is_found : Event → Bool
is_found (read r v) = r == Reg.block_buffer && (not (v == 0xffff_ffff) && not (field 8 8 v == 0))
is_found (write r v) = false
is_found (jtag_read r v) = false
is_found (jtag_write r v) = false
is_found (dma_read r v) = false
is_found lock = false
is_found unlock = false
is_found (sleep n) = false

-- A write to the reset register with the acknowledge bit.
abbrev pub is_ack : Event → Bool
is_ack (read r v) = false
is_ack (write r v) = r == Reg.reset && field 7 1 v == 1
is_ack (jtag_read r v) = false
is_ack (jtag_write r v) = false
is_ack (dma_read r v) = false
is_ack lock = false
is_ack unlock = false
is_ack (sleep n) = false

-- The accesses that the loop makes itself.
abbrev pub is_own : Event → Bool
is_own (read r v) = r == Reg.block_buffer
is_own (write r v) = r == Reg.reset
is_own (jtag_read r v) = false
is_own (jtag_write r v) = false
is_own (dma_read r v) = false
is_own lock = true
is_own unlock = true
is_own (sleep n) = true

-- The library polls: it is open and runs, a routine is connected, and acknowledgements are left to
-- the library. tipIntConnect with a routine and tipIntEnable leave it so.
pub record IsPolling (w : World) : Type 0 where
  pub opened : w.lib.opened ≡ true
  pub running : w.lib.int_running ≡ true
  pub waits : above w.lib.need_ack 0 ≡ false
  pub acks : w.lib.do_ack ≡ true
  pub connected : w.lib.int_routine ≡ true
  pub plain : w.lib.ack_routine ≡ false

-- What passed between two worlds: looks, blocks found, acknowledgements and calls of the routine (as
-- `called_in` finds them) in the log, and the blocks and acknowledgements that the library's two counters add.
pub record Passed (called_in : Log → ℕ) (looks found acks calls ints : ℕ) (w u : World)
    : Type 0 where
  pub looked : count is_look u.log ≡ count is_look w.log + looks
  pub found_blocks : count is_found u.log ≡ count is_found w.log + found
  pub acked : count is_ack u.log ≡ count is_ack w.log + acks
  pub called : called_in u.log ≡ called_in w.log + calls
  pub int_counted : u.lib.int_count % 2 ^ 32 ≡ (w.lib.int_count + ints) % 2 ^ 32
  pub ack_counted : u.lib.ack_count % 2 ^ 32 ≡ (w.lib.ack_count + acks) % 2 ^ 32

pub Passed-trans :
    {called_in : Log → ℕ} {l f a c i l' f' a' c' i' : ℕ} {w u v : World}
    → Passed called_in l f a c i w u
    → Passed called_in l' f' a' c' i' u v
    → Passed called_in (l + l') (f + f') (a + a') (c + c') (i + i') w v
Passed-trans p q = record {
  looked = omega (arith, p.looked, q.looked);
  found_blocks = omega (arith, p.found_blocks, q.found_blocks);
  acked = omega (arith, p.acked, q.acked);
  called = omega (arith, p.called, q.called);
  int_counted = omega (arith, p.int_counted, q.int_counted);
  ack_counted = omega (arith, p.ack_counted, q.ack_counted);
}

-- The user's routine reads out a block, so that `called_in` finds one more call of it in the log; what
-- the loop does itself is no call. The routine does not look for blocks, acknowledge any, or turn the
-- polling off.
pub record IsReadout (called_in : Log → ℕ) (user : Routines) : Type 0 where
  pub foreign : (e : Event) (l : Log) → is_own e ≡ true → called_in (e ∷ l) ≡ called_in l
  pub still : (arg : ℕ) (w : World) → IsPolling w → IsPolling (user.int_routine arg w).1
  pub once :
      (arg : ℕ) (w : World) → IsPolling w → Passed called_in 0 0 0 1 0 w (user.int_routine arg w).1
