-- ===== src/Block.antt =====
-- TIpcieLib.c: the block level (events in a block) and the buffer level (blocks that may wait).
pub mod Idle
pub mod Closed
pub mod Levels
use tipcie.Prelude.{
  ℕ, ◌/◌, ◌^◌, ◌%◌, Bool, true, false, not, ◌||◌, ◌&&◌, bit_and, bit_or, ℤ, pos, ok, error, above,
  equals, truthy, to_u32, to_int, ltb, ◌==◌, if◌then◌else◌,
}
use tipcie.Bits.Fields.{not32}
use tipcie.Machine.{
  Device, M, pure, ◌>>=◌, ◌>>◌, globals, update, tiplock, tipunlock, tip_read, tip_write,
}
use tipcie.Machine.Reg
use tipcie.Machine.Macro

module _ (dev : Device) where
  -- The command `code` goes out by the trigger command register. The VME trigger source is on
  -- while it does, and off again after it if it was off.
  unfoldable pub broadcast : ℕ → M (Unit {0})
  broadcast code = do
    trigsrc ← tip_read dev Reg.trigsrc
    let off = bit_and trigsrc Macro.trigsrc_vme == 0
    if off then tip_write Reg.trigsrc (bit_or Macro.trigsrc_vme trigsrc) else pure tt
    tip_write Reg.trigger_command code
    if off then tip_write Reg.trigsrc trigsrc else pure tt

  pub tip_get_next_block_level : M ℤ
  tip_get_next_block_level = do
    g ← globals
    if not g.opened then pure error else do
      tiplock
      reg_bl ← tip_read dev Reg.blocklevel
      let bl = bit_and reg_bl Macro.blocklevel_received_mask / 2 ^ 24
      update λ g. record g {
        next_block_level = bl;
        block_level = bit_and reg_bl Macro.blocklevel_current_mask / 2 ^ 16;
      }
      tipunlock
      pure (to_int bl)

  pub tip_get_current_block_level : M ℤ
  tip_get_current_block_level = do
    g ← globals
    if not g.opened then pure error else do
      tiplock
      reg_bl ← tip_read dev Reg.blocklevel
      let bl = bit_and reg_bl Macro.blocklevel_current_mask / 2 ^ 16
      update λ g. record g {
        block_level = bl;
        next_block_level = bit_and reg_bl Macro.blocklevel_received_mask / 2 ^ 24;
      }
      tipunlock
      pure (to_int bl)

  -- A negative level passes the test, which compares `int`s.
  pub tip_broadcast_next_block_level : ℤ → M ℤ
  tip_broadcast_next_block_level block_level = do
    g ← globals
    if not g.opened
        then pure error
        else if above block_level Macro.blocklevel_mask || equals block_level 0
        then pure error
        else if not (truthy g.master)
        then pure error
        else do
          tiplock
          broadcast (bit_or Macro.triggercommand_set_blocklevel (to_u32 block_level))
          tipunlock
          tip_get_next_block_level
          pure ok

  pub tip_set_block_level : ℤ → M ℤ
  tip_set_block_level = tip_broadcast_next_block_level

  pub tip_set_instant_block_level_change : ℤ → M ℤ
  tip_set_instant_block_level_change enable = do
    g ← globals
    if not g.opened then pure error else do
      tiplock
      v ← tip_read dev Reg.vme_control
      if truthy enable
          then tip_write Reg.vme_control (bit_or v Macro.vmecontrol_blocklevel_update)
          else tip_write Reg.vme_control (bit_and v (not32 Macro.vmecontrol_blocklevel_update))
      tipunlock
      pure ok

  pub tip_get_instant_block_level_change : M ℤ
  tip_get_instant_block_level_change = do
    g ← globals
    if not g.opened then pure error else do
      tiplock
      v ← tip_read dev Reg.vme_control
      tipunlock
      pure (to_int (bit_and v Macro.vmecontrol_blocklevel_update / 2 ^ 21))
