-- ===== src/Tests.antt =====
-- A card, states of the library and a trigger block on which the theorems are tried.
pub mod Data
pub mod Settings
pub mod Control
pub mod Rules
pub mod Times
pub mod Memory
use tipcie.Prelude.{
  ℕ, zero, suc, ◌+◌, ◌%◌, ◌^◌, true, false, none, pos, negsuc, List, [], ◌∷◌, arith, ◌==◌,
  if◌then◌else◌,
}
use tipcie.Machine.{Device, World}
use tipcie.Machine.Reg
use tipcie.Machine.Registers.{stored, stored-lt, Remembers}
use tipcie.Format.{Buffer}
use tipcie.Format.Block.{Block, IsBlock, block_words}
use tipcie.Fifo.Stream.{fifo_reads}

abbrev pub sample_block : Block
sample_block = record {
  label = 0x40_0102;
  tag = 1;
  events =
      record { trigger_type = 1; number = 7; rest = 0x1234 ∷ 0x5 ∷ [] }
      ∷ record { trigger_type = 0x21; number = 8; rest = 0x1300 ∷ 0x5 ∷ [] }
      ∷ [];
}

pub sample_block-IsBlock : IsBlock sample_block
sample_block-IsBlock = record {
  label_fits = omega arith;
  tag_fits = omega arith;
  level_fits = omega arith;
  count_fits = omega arith;
  events_fit = (omega arith, omega arith, (omega arith, omega arith, tt));
}

-- The words of the FIFO, and zeros behind them.
abbrev pub nth : List ℕ → ℕ → ℕ
nth [] i = 0
nth (x ∷ xs) zero = x
nth (x ∷ xs) (suc i) = nth xs i

abbrev pub stream : ℕ → ℕ
stream i = nth (block_words sample_block) i % 2 ^ 32

abbrev pub card : Device
card = record {
  answer = λ l r. if r == Reg.fifo then nth (block_words sample_block) (fifo_reads l) else 0;
  jtag_answer = λ l r. 0;
  dma_answer = λ l r. 0;
}

-- The library as tipOpen and tipInit leave it, for programmed I/O.
abbrev pub ready : World
ready = record {
  lib = record {
    opened = true;
    use_dma = false;
    master = pos 1;
    crate_id = pos 0x59;
    block_level = 2;
    next_block_level = 2;
    block_buffer_level = 1;
    int_count = 0;
    ack_count = 0;
    daq_count = 0;
    readout_mode = 2;
    trigger_source = 0;
    slave_mask = 0;
    do_ack = false;
    need_ack = pos 0;
    int_running = false;
    int_vec = 0xec;
    int_routine = false;
    int_arg = 0;
    ack_routine = false;
    ack_arg = 0;
    readout_enabled = true;
    fiber_latency_measurement = 0;
    sync_event_flag = 0;
    sync_event_received = 0;
    n_readout_events = 0;
    do_sync_reset_request = false;
    fake_trigger_bank = true;
    sync_reset_type = 0xdd;
    version = 0xe020;
    fiber_latency_offset = pos 0;
    do_int_polling = true;
    tried_again = 0;
    mem_count = pos 0;
    dma_pos = none;
    bump = pos 0;
    fd = pos 3;
    poll_thread = false;
    trig_pattern_data = λ i. 0x4342_4100 + i;
    old_live = 0;
    old_total = 0;
  };
  log = [];
}

abbrev pub zeros : Buffer
zeros i = 0

-- The same, set up for DMA; a slave; and before tipOpen.
abbrev pub dma_ready : World
dma_ready = record ready { lib = record (ready.lib) { use_dma = true } }

abbrev pub slave : World
slave = record ready { lib = record (ready.lib) { master = pos 0 } }

abbrev pub closed : World
closed = record ready { lib = record (ready.lib) { opened = false; fd = negsuc 0 } }

-- A card each of whose registers keeps what is written to it, and starts with 0x1234_5678.
abbrev pub memory : Device
memory = record {
  answer = λ l r. stored r 0x1234_5678 l;
  jtag_answer = λ l r. 0;
  dma_answer = λ l i. if i == 0 then 0x8002_0000 else 0x100 + i;
}

pub memory-Remembers : (r : ℕ) → Remembers memory r 0x1234_5678
memory-Remembers r l = omega (arith, stored-lt r 0x1234_5678 l (omega arith))
