-- ===== src/Interrupt/Serving.antt =====
-- The polling loop with a connected routine: each block that is found is served and acknowledged.
use tipcie.Prelude.{ℕ, ◌+◌, ◌%◌, ◌^◌, true, false, ◌∷◌}
use tipcie.Machine.{Device, World, lock, unlock, Log, write}
use tipcie.Machine.Reg
use tipcie.Interrupt.{Routines, reset_bits}
use tipcie.Interrupt.Trace.{IsReadout}

module _ (dev : Device) (user : Routines) (called_in : Log → ℕ)
    (readout : IsReadout called_in user) where
  abbrev after_ack : World → World
  after_ack w =
      let bits = reset_bits w.lib.readout_enabled w.lib.do_sync_reset_request in
      record {
        lib = record (w.lib) {
          do_ack = true;
          ack_count = (w.lib.ack_count + 1) % 2 ^ 32;
          do_sync_reset_request = false;
          n_readout_events = 0;
        };
        log = unlock ∷ write Reg.reset (bits % 2 ^ 32) ∷ lock ∷ w.log;
      }

  abbrev counted : ℕ → World → World
  counted tidata w = record w {
    lib = record (w.lib) { daq_count = tidata; int_count = (w.lib.int_count + 1) % 2 ^ 32 };
  }

  abbrev after_call : ℕ → World → World
  after_call tidata w = (user.int_routine w.lib.int_arg (counted tidata w)).1
