-- ===== src/Machine.antt =====
-- The library's view of the machine: TIpcieLib.c's global variables, the accesses that it makes to
-- the card, to its mutex and to the clock, and the state monad in which its functions run.
pub mod Macro
pub mod Lock
pub mod Registers
pub mod Field
pub mod Touch
pub mod Reg
use tipcie.Prelude.{ℕ, ◌%◌, ◌^◌, Bool, true, false, List, ◌∷◌, Option, ℤ}

-- What a thread does that others can see: `tipRead`, `tipWrite`, `tipJTAGRead` and `tipJTAGWrite`
-- with the value that went over the bus, a read of a word of the DMA memory, TIPLOCK and TIPUNLOCK
-- on `tipcieMutex`, and `usleep`.
pub data Event : Type 0 where
  read : ℕ → ℕ → Event
  write : ℕ → ℕ → Event
  jtag_read : ℕ → ℕ → Event
  jtag_write : ℕ → ℕ → Event
  dma_read : ℕ → ℕ → Event
  lock unlock : Event
  sleep : ℕ → Event

-- The accesses so far, the newest first.
abbrev pub Log : Type 0
Log = List Event

-- The card is not under src: what it answers may depend on every access so far.
pub record Device : Type 0 where
  pub answer : Log → ℕ → ℕ
  pub jtag_answer : Log → ℕ → ℕ
  pub dma_answer : Log → ℕ → ℕ

-- The global variables of TIpcieLib.c that its functions read and write. `opened` says that `TIPp`
-- is not NULL; `dma_pos` is where `TIPpd` points, in words from the start of the DMA memory, `trig_pattern_data`
-- the array of 16 words by its index, `old_live` and `old_total` the static variables of `tipLive`, and
-- `bump` the static variable of `tipReadBlock`.
pub record Globals : Type 0 where
  pub opened : Bool
  pub use_dma : Bool
  pub master : ℤ
  pub crate_id : ℤ
  pub block_level : ℕ
  pub next_block_level : ℕ
  pub block_buffer_level : ℕ
  pub int_count : ℕ
  pub ack_count : ℕ
  pub daq_count : ℕ
  pub readout_mode : ℕ
  pub trigger_source : ℕ
  pub slave_mask : ℕ
  pub do_ack : Bool
  pub need_ack : ℤ
  pub int_running : Bool
  pub int_vec : ℕ
  pub int_routine : Bool
  pub int_arg : ℕ
  pub ack_routine : Bool
  pub ack_arg : ℕ
  pub readout_enabled : Bool
  pub fiber_latency_measurement : ℕ
  pub sync_event_flag : ℕ
  pub sync_event_received : ℕ
  pub n_readout_events : ℕ
  pub do_sync_reset_request : Bool
  pub fake_trigger_bank : Bool
  pub sync_reset_type : ℕ
  pub version : ℕ
  pub fiber_latency_offset : ℤ
  pub do_int_polling : Bool
  pub tried_again : ℕ
  pub mem_count : ℤ
  pub dma_pos : Option ℕ
  pub bump : ℤ
  pub fd : ℤ
  pub poll_thread : Bool
  pub trig_pattern_data : ℕ → ℕ
  pub old_live : ℕ
  pub old_total : ℕ

pub record World : Type 0 where
  pub lib : Globals
  pub log : Log

abbrev pub M {ℓ} : Type ℓ → Type ℓ
M A = World → A × World

abbrev pub pure {ℓ} : {A : Type ℓ} → A → M A
pure a w = (a, w)

infixl 5 ◌>>=◌ ◌>>◌
abbrev pub ◌>>=◌ {ℓ κ} : {A : Type ℓ} {B : Type κ} → M A → (A → M B) → M B
m >>= k = λ w. let r = m w in k r.0 r.1

abbrev pub ◌>>◌ {ℓ κ} : {A : Type ℓ} {B : Type κ} → M A → M B → M B
m >> n = λ w. n (m w).1

abbrev pub globals : M Globals
globals w = (w.lib, w)

abbrev pub update : (Globals → Globals) → M (Unit {0})
update f w = (tt, record w { lib = f w.lib })

abbrev pub emit : Event → M (Unit {0})
emit e w = (tt, record w { log = e ∷ w.log })

abbrev pub tiplock : M (Unit {0})
tiplock = emit lock

abbrev pub tipunlock : M (Unit {0})
tipunlock = emit unlock

abbrev pub usleep : ℕ → M (Unit {0})
usleep n = emit (sleep n)

module _ (dev : Device) where
  -- An `unsigned int` comes back.
  abbrev pub tip_read : ℕ → M ℕ
  tip_read r w = let v = dev.answer w.log r % 2 ^ 32 in (v, record w { log = read r v ∷ w.log })

  abbrev pub tip_jtag_read : ℕ → M ℕ
  tip_jtag_read r w =
      let v = dev.jtag_answer w.log r % 2 ^ 32 in (v, record w { log = jtag_read r v ∷ w.log })

  -- The word at index `i` of the DMA memory.
  abbrev pub dma_load : ℕ → M ℕ
  dma_load i w =
      let v = dev.dma_answer w.log i % 2 ^ 32 in (v, record w { log = dma_read i v ∷ w.log })

abbrev pub tip_write : ℕ → ℕ → M (Unit {0})
tip_write r v = emit (write r (v % 2 ^ 32))

abbrev pub tip_jtag_write : ℕ → ℕ → M (Unit {0})
tip_jtag_write r v = emit (jtag_write r (v % 2 ^ 32))
