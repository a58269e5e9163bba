-- ===== src/Interrupt.antt =====
-- TIpcieLib.c: the readout of blocks by polling, its acknowledgement, and turning it on and off.
-- The functions that the user connects are not under src/: they are parameters.
pub mod Idle
pub mod Closed
pub mod Trace
pub mod Serving
pub mod Polling
use tipcie.Prelude.{
  ℕ, zero, suc, ◌+◌, ◌*◌, ◌%◌, ◌^◌, Bool, true, false, not, ◌||◌, ◌&&◌, bit_and, bit_or, ℤ, pos, ok,
  error, above, equals, truthy, ltb, ◌==◌, if◌then◌else◌,
}
use tipcie.Bits.Fields.{not32}
use tipcie.Machine.{
  Device, Globals, M, pure, ◌>>=◌, ◌>>◌, globals, update, tiplock, tipunlock, usleep, tip_read,
  tip_write,
}
use tipcie.Machine.Reg
use tipcie.Machine.Macro
use tipcie.Trigger.{tip_enable_trigger_source, tip_disable_trigger_source}
use tipcie.Buffer.{tip_bready}

-- What the user's routines do with their argument.
pub record Routines : Type 0 where
  pub int_routine : ℕ → M (Unit {0})
  pub ack_routine : ℕ → M (Unit {0})

abbrev pub is_polling : ℕ → Bool
is_polling mode = mode == Macro.readout_ts_poll || mode == Macro.readout_ext_poll

-- The routine is connected only in the polling modes; whether it is NULL is `routine`.
pub tip_int_connect : ℕ → Bool → ℕ → M ℤ
tip_int_connect vector routine arg = do
  g ← globals
  if not g.opened then pure error else do
    let vec = if ltb vector 0xff && ltb 0x40 vector then vector else Macro.int_vec
    update λ g. record g { int_count = 0; ack_count = 0; do_ack = true; int_vec = vec }
    tiplock
    tip_write Reg.intsetup (bit_or (Macro.int_level * 2 ^ 8) vec)
    tipunlock
    if not (is_polling g.readout_mode) then pure error else do
      update λ g. record g { int_routine = routine; int_arg = if routine then arg else 0 }
      pure ok

-- The thread is cancelled and joined, and `tippollthread` keeps its value.
pub tip_int_disconnect : M ℤ
tip_int_disconnect = do
  g ← globals
  if not g.opened then pure error else if g.int_running then pure error else pure ok

pub tip_ack_connect : Bool → ℕ → M ℤ
tip_ack_connect routine arg = do
  update λ g. record g { ack_routine = routine; ack_arg = if routine then arg else 0 }
  pure (if routine then ok else error)

pub tip_do_library_polling_thread : ℤ → M ℤ
tip_do_library_polling_thread choice = do
  update λ g. record g { do_int_polling = truthy choice }
  pure (if truthy choice then pos 1 else pos 0)

pub tip_get_int_count : M ℕ
tip_get_int_count = do tiplock; g ← globals; tipunlock; pure g.int_count

pub tip_get_ack_count : M ℕ
tip_get_ack_count = do tiplock; g ← globals; tipunlock; pure g.ack_count

-- The bits of the reset register that acknowledge a block.
reset_bits : Bool → Bool → ℕ
reset_bits readout_enabled sync_reset_request =
    let ack = Macro.reset_busyack in
    let readout = if readout_enabled then ack else bit_or ack Macro.reset_block_readout in
    if sync_reset_request then bit_or readout Macro.reset_syncreset_request else readout

module _ (user : Routines) where
  pub tip_int_ack : M (Unit {0})
  unfolding reset_bits
  tip_int_ack = do
    g ← globals
    if not g.opened
        then pure tt
        else if g.ack_routine
        then (do tiplock; user.ack_routine g.ack_arg; tipunlock)
        else (do
          tiplock
          let bits = reset_bits g.readout_enabled g.do_sync_reset_request
          update λ g. record g {
            do_ack = true;
            ack_count = (g.ack_count + 1) % 2 ^ 32;
            do_sync_reset_request = false;
          }
          tip_write Reg.reset bits
          update λ g. record g { n_readout_events = 0 }
          tipunlock)

-- tipStartPollingThread; that the thread could be made is not looked at.
pub tip_start_polling_thread : Globals → Globals
tip_start_polling_thread g = record g { poll_thread = true }

pub tip_int_enable : ℤ → M ℤ
unfolding tip_start_polling_thread
tip_int_enable iflag = do
  g ← globals
  if not g.opened then pure error else do
    tiplock
    update λ g. record g {
      int_count = if equals iflag 1 then 0 else g.int_count;
      ack_count = if equals iflag 1 then 0 else g.ack_count;
    }
    update λ g. record g { int_running = true; do_ack = true; need_ack = pos 0 }
    if is_polling g.readout_mode
        then (do
          update λ g. if g.do_int_polling then tip_start_polling_thread g else g
          tip_write Reg.running_mode 0x71
          tipunlock
          usleep 300000
          tip_enable_trigger_source
          pure ok)
        else (do update λ g. record g { int_running = false }; tipunlock; pure error)

module _ (dev : Device) where
  pub tip_int_disable : M (Unit {0})
  tip_int_disable = do
    g ← globals
    if not g.opened then pure tt else do
      tip_disable_trigger_source (pos 1)
      tiplock
      v ← tip_read dev Reg.intsetup
      tip_write Reg.intsetup (bit_and v (not32 Macro.intsetup_enable))
      tip_write Reg.running_mode 0x0
      update λ g. record g { int_running = false }
      tipunlock

  module _ (user : Routines) where
    -- A block was found: the user's routine runs, and the block is acknowledged.
    serve : ℕ → M (Unit {0})
    serve tidata = do
      update λ g. record g { daq_count = tidata; int_count = (g.int_count + 1) % 2 ^ 32 }
      g ← globals
      if g.int_routine then user.int_routine g.int_arg else pure tt
      g' ← globals
      if g'.do_ack then tip_int_ack user else pure tt

    -- With what tip_bready returned: 0xffff_ffff is ERROR, and leaves the loop by `false`.
    on_ready : ℕ → M Bool
    unfolding serve
    on_ready tidata = if tidata == 0xffff_ffff then pure false else do
      g ← globals
      if not (tidata == 0) && g.int_running then serve tidata else pure tt
      pure true

    -- One turn of the loop of tipPoll.
    pub poll_turn : M Bool
    unfolding on_ready
    poll_turn = do
      usleep 1
      g ← globals
      if above g.need_ack 0 then pure true else tip_bready dev >>= on_ready

    -- The first `n` turns. The thread itself goes on until it is cancelled or the card is gone.
    pub poll_turns : ℕ → M Bool
    poll_turns zero = pure true
    poll_turns (suc n) = do more ← poll_turn; if more then poll_turns n else pure false
