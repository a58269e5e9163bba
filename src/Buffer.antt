-- ===== src/Buffer.antt =====
-- TIpcieLib.c: how many blocks may wait to be read, how many do, and the sync event flags.
pub mod Idle
pub mod Closed
pub mod Levels
use tipcie.Prelude.{
  ℕ, ◌/◌, ◌^◌, not, ◌&&◌, bit_and, bit_or, ℤ, ok, error, truthy, to_int, ltb, ◌==◌, if◌then◌else◌,
}
use tipcie.Bits.Fields.{not32}
use tipcie.Machine.{
  Device, M, pure, ◌>>=◌, ◌>>◌, globals, update, tiplock, tipunlock, tip_read, tip_write,
}
use tipcie.Machine.Reg
use tipcie.Machine.Macro
use tipcie.Block.{broadcast}

module _ (dev : Device) where
  pub tip_set_block_buffer_level : ℕ → M ℤ
  tip_set_block_buffer_level level = do
    g ← globals
    if not g.opened
        then pure error
        else if ltb Macro.blockbuffer_bufferlevel_mask level
        then pure error
        else do
          tiplock
          tip_write Reg.block_buffer level
          update λ g. record g { block_buffer_level = level }
          if truthy g.master
              then broadcast dev (bit_or Macro.triggercommand_set_bufferlevel level)
              else pure tt
          tipunlock
          pure ok

  pub tip_get_broadcast_block_buffer_level : M ℤ
  tip_get_broadcast_block_buffer_level = do
    g ← globals
    if not g.opened then pure error else do
      tiplock
      v ← tip_read dev Reg.data_format
      tipunlock
      pure (to_int (bit_and v Macro.dataformat_bcast_bufferlevel_mask / 2 ^ 24))

  -- The argument is not looked at.
  pub tip_busy_on_buffer_level : ℤ → M ℤ
  tip_busy_on_buffer_level enable = do
    g ← globals
    if not g.opened then pure error else do
      tiplock
      v ← tip_read dev Reg.vme_control
      tip_write Reg.vme_control (bit_or v Macro.vmecontrol_busy_on_bufferlevel)
      tipunlock
      pure ok

  pub tip_use_broadcast_buffer_level : ℤ → M ℤ
  tip_use_broadcast_buffer_level enable = do
    g ← globals
    if not g.opened then pure error else do
      tiplock
      v ← tip_read dev Reg.vme_control
      if truthy enable
          then tip_write Reg.vme_control (bit_and v (not32 Macro.vmecontrol_use_local_bufferlevel))
          else tip_write Reg.vme_control (bit_or v Macro.vmecontrol_use_local_bufferlevel)
      tipunlock
      pure ok

  pub tip_set_block_limit : ℕ → M ℤ
  tip_set_block_limit limit = do
    g ← globals
    if not g.opened
        then pure error
        else do tiplock; tip_write Reg.blocklimit limit; tipunlock; pure ok

  -- An `unsigned int` is returned, so that ERROR is its largest value.
  pub tip_get_block_limit : M ℕ
  tip_get_block_limit = do
    g ← globals
    if not g.opened
        then pure 0xffff_ffff
        else do tiplock; v ← tip_read dev Reg.blocklimit; tipunlock; pure v

  pub tip_get_block_limit_status : M ℤ
  tip_get_block_limit_status = do
    g ← globals
    if not g.opened then pure error else do
      tiplock
      v ← tip_read dev Reg.block_buffer
      tipunlock
      pure (if bit_and v Macro.blockbuffer_busy_on_blocklimit == 0 then ℤ.pos 0 else ℤ.pos 1)

  -- The number of blocks that are ready, as an `unsigned int`. A card that is gone reads as all
  -- ones, which the function takes for ERROR. The fields are kept in the library's globals; the
  -- sync event is flagged only when the last block of the event is all that is ready.
  pub tip_bready : M ℕ
  tip_bready = do
    g ← globals
    if not g.opened then pure 0 else do
      tiplock
      block_buffer ← tip_read dev Reg.block_buffer
      let rval = bit_and block_buffer Macro.blockbuffer_blocks_ready_mask / 2 ^ 8
      let complete = bit_and block_buffer Macro.blockbuffer_triggers_needed_in_block / 2 ^ 16 == 0
      let received = bit_and block_buffer Macro.blockbuffer_syncevent / 2 ^ 31
      update λ g. record g {
        sync_event_received = received;
        n_readout_events = bit_and block_buffer Macro.blockbuffer_ro_nevents_mask / 2 ^ 24;
        sync_event_flag = if rval == 1 && (not (received == 0) && complete) then 1 else 0;
      }
      tipunlock
      pure (if block_buffer == 0xffff_ffff then 0xffff_ffff else rval)

pub tip_get_sync_event_flag : M ℤ
tip_get_sync_event_flag = do tiplock; g ← globals; tipunlock; pure (ℤ.pos g.sync_event_flag)

pub tip_get_sync_event_received : M ℤ
tip_get_sync_event_received = do tiplock; g ← globals; tipunlock; pure (ℤ.pos g.sync_event_received)

pub tip_get_readout_events : M ℤ
tip_get_readout_events = do tiplock; g ← globals; tipunlock; pure (ℤ.pos g.n_readout_events)
