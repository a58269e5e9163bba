-- ===== src/Sync.antt =====
-- TIpcieLib.c: sync source, sync reset, and the event counter.
pub mod Idle
pub mod Closed
use tipcie.Prelude.{
  ℕ, ◌*◌, ◌/◌, ◌^◌, not, bit_and, bit_or, ℤ, pos, ok, error, equals, truthy, ltb, if◌then◌else◌,
}
use tipcie.Machine.{
  Device, M, pure, ◌>>=◌, ◌>>◌, globals, update, tiplock, tipunlock, usleep, tip_read, tip_write,
}
use tipcie.Machine.Reg
use tipcie.Machine.Macro
use tipcie.Block.{tip_broadcast_next_block_level}
use tipcie.Buffer.{tip_set_block_buffer_level}

pub tip_set_sync_source : ℕ → M ℤ
tip_set_sync_source sync = do
  g ← globals
  if not g.opened
      then pure error
      else if ltb Macro.sync_sourcemask sync
      then pure error
      else do tiplock; tip_write Reg.sync sync; tipunlock; pure ok

pub tip_set_sync_delay_width : ℕ → ℕ → ℤ → M (Unit {0})
tip_set_sync_delay_width delay width widthstep = do
  g ← globals
  if not g.opened
      then pure tt
      else if ltb Macro.syncdelay_mask delay
      then pure tt
      else if ltb Macro.syncwidth_mask width
      then pure tt
      else do
        tiplock
        tip_write Reg.sync_delay delay
        tip_write Reg.sync_width
            (if truthy widthstep then bit_or width Macro.syncwidth_longwidth_enable else width)
        tipunlock

pub tip_trig_link_reset : M (Unit {0})
tip_trig_link_reset = do
  g ← globals
  if not g.opened then pure tt else do
    tiplock
    tip_write Reg.sync_command Macro.synccommand_triggerlink_disable
    usleep 10
    tip_write Reg.sync_command Macro.synccommand_triggerlink_disable
    usleep 10
    tip_write Reg.sync_command Macro.synccommand_triggerlink_enable
    usleep 10
    tipunlock

pub tip_set_sync_reset_type : ℤ → M ℤ
tip_set_sync_reset_type type = do
  update λ g. record g {
    sync_reset_type =
        if truthy type then Macro.synccommand_syncreset_4us else Macro.synccommand_syncreset;
  }
  pure ok

pub tip_sync_reset_resync : M (Unit {0})
tip_sync_reset_resync = do
  g ← globals
  if not g.opened
      then pure tt
      else do tiplock; tip_write Reg.sync_command g.sync_reset_type; tipunlock

pub tip_reset_event_counter : M ℤ
tip_reset_event_counter = do
  g ← globals
  if not g.opened
      then pure error
      else do tiplock; tip_write Reg.reset Macro.reset_scalers_reset; tipunlock; pure ok

module _ (dev : Device) where
  -- With a flag the levels that were set last are sent out again, to be taken over.
  pub tip_sync_reset : ℤ → M (Unit {0})
  tip_sync_reset blflag = do
    g ← globals
    if not g.opened then pure tt else do
      tiplock
      tip_write Reg.sync_command g.sync_reset_type
      usleep 10
      tip_write Reg.sync_command Macro.synccommand_reset_evnum
      usleep 10
      tipunlock
      g' ← globals
      if truthy blflag
          then (do
            tip_broadcast_next_block_level dev (pos g'.next_block_level)
            g'' ← globals
            tip_set_block_buffer_level dev g''.block_buffer_level
            pure tt)
          else pure tt

  pub tip_clock_reset : M (Unit {0})
  tip_clock_reset = do
    g ← globals
    if not g.opened then pure tt else if not (equals g.master 1) then pure tt else do
      tiplock
      tip_write Reg.sync_command Macro.synccommand_clk250_resync
      usleep 20000
      v ← tip_read dev Reg.sync
      tip_write Reg.sync 0
      usleep 20000
      tip_write Reg.sync_command Macro.synccommand_clk250_resync
      usleep 20000
      tip_write Reg.sync (bit_and v Macro.sync_sourcemask)
      tipunlock

  -- An `unsigned long long`, so that ERROR is its largest value.
  pub tip_get_event_counter : M ℕ
  tip_get_event_counter = do
    g ← globals
    if not g.opened then pure 0xffff_ffff_ffff_ffff else do
      tiplock
      lo ← tip_read dev Reg.event_number_lo
      v ← tip_read dev Reg.event_number_hi
      tipunlock
      pure (bit_or lo (bit_and v Macro.eventnumber_hi_mask / 2 ^ 16 * 2 ^ 32))
