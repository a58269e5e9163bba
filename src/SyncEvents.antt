-- ===== src/SyncEvents.antt =====
-- TIpcieLib.c: the interval of sync events, and the slaves' requests for a sync reset.
pub mod Idle
pub mod Closed
pub mod Interval
use tipcie.Prelude.{
  ℕ, ◌*◌, ◌/◌, ◌^◌, true, not, bit_and, bit_or, ℤ, pos, ok, error, above, truthy, to_u32, to_int,
  ltb, ◌==◌, if◌then◌else◌,
}
use tipcie.Machine.{
  Device, M, pure, ◌>>=◌, ◌>>◌, globals, update, tiplock, tipunlock, tip_read, tip_write,
}
use tipcie.Machine.Reg
use tipcie.Machine.Macro

pub tip_set_sync_event_interval : ℤ → M ℤ
tip_set_sync_event_interval blk_interval = do
  g ← globals
  if not g.opened then pure error else if not (truthy g.master) then pure error else do
    let interval =
        if above blk_interval Macro.synceventctrl_nblocks_mask
        then pos Macro.synceventctrl_nblocks_mask
        else blk_interval
    tiplock
    tip_write Reg.sync_event_ctrl (to_u32 interval)
    tipunlock
    pure ok

pub tip_force_sync_event : M ℤ
tip_force_sync_event = do
  g ← globals
  if not g.opened
      then pure error
      else if not (truthy g.master)
      then pure error
      else do tiplock; tip_write Reg.reset Macro.reset_force_syncevent; tipunlock; pure ok

-- The request is made by the next acknowledgement of a block.
pub tip_sync_reset_request : M ℤ
tip_sync_reset_request = do
  g ← globals
  if not g.opened
      then pure error
      else do tiplock; update λ h. record h { do_sync_reset_request = true }; tipunlock; pure ok

-- The bits of the slaves that asked, as tipSyncResetRequestStatus reorders them.
reorganize : ℕ → ℕ
reorganize rval =
    if rval == 0 then rval else let self = bit_and rval 1 in bit_or (rval / 2) (self * 2 ^ 8)

module _ (dev : Device) where
  pub tip_get_sync_event_interval : M ℤ
  tip_get_sync_event_interval = do
    g ← globals
    if not g.opened then pure error else if not (truthy g.master) then pure error else do
      tiplock
      v ← tip_read dev Reg.sync_event_ctrl
      tipunlock
      pure (to_int (bit_and v Macro.synceventctrl_nblocks_mask))

  pub tip_get_sync_reset_request : M ℤ
  tip_get_sync_reset_request = do
    g ← globals
    if not g.opened then pure error else if not (truthy g.master) then pure error else do
      tiplock
      v ← tip_read dev Reg.block_buffer
      tipunlock
      pure (to_int (bit_and v Macro.blockbuffer_syncreset_requested / 2 ^ 30))

  pub tip_enable_sync_reset_request : ℕ → ℤ → M ℤ
  tip_enable_sync_reset_request port_mask self = do
    g ← globals
    if not g.opened
        then pure error
        else if not (truthy g.master)
        then pure error
        else if ltb 1 port_mask
        then pure error
        else do
          let self1 : ℕ = if truthy self then 1 else 0
          tiplock
          v ← tip_read dev Reg.roc_enable
          tip_write Reg.roc_enable (
              bit_or (bit_or (bit_and v Macro.rocenable_mask) (port_mask * 2 ^ 11))
                (self1 * 2 ^ 10))
          tipunlock
          pure ok

  pub tip_sync_reset_request_status : ℤ → M ℤ
  unfolding reorganize
  tip_sync_reset_request_status pflag = do
    g ← globals
    if not g.opened then pure error else if not (truthy g.master) then pure error else do
      tiplock
      v ← tip_read dev Reg.roc_enable
      tipunlock
      pure (to_int (reorganize (bit_and v Macro.rocenable_syncreset_request_monitor_mask)))
