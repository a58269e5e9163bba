-- ===== src/Crate.antt =====
-- TIpcieLib.c: settings made before initialisation, and the identity of this crate and of the
-- others on the fibers.
pub mod Idle
pub mod Closed
pub mod Registers
use tipcie.Prelude.{
  ℕ, ◌+◌, ◌-◌, ◌*◌, ◌/◌, ◌^◌, not, ◌||◌, bit_and, bit_or, ℤ, pos, negsuc, ok, error, above,
  negative, equals, to_int, ltb, if◌then◌else◌,
}
use tipcie.Bits.Fields.{not32}
use tipcie.Machine.{
  Device, M, pure, ◌>>=◌, ◌>>◌, globals, update, tiplock, tipunlock, tip_read, tip_write,
}
use tipcie.Machine.Reg
use tipcie.Machine.Macro

pub tip_set_fiber_latency_offset_pre_init : ℤ → M ℤ
tip_set_fiber_latency_offset_pre_init flo =
    if negative flo || above flo 0x1ff
    then pure error
    else do update λ g. record g { fiber_latency_offset = flo }; pure ok

pub tip_set_crate_id_pre_init : ℤ → M ℤ
tip_set_crate_id_pre_init cid =
    if negative cid || above cid 0xff
    then pure error
    else do update λ g. record g { crate_id = cid }; pure ok

-- &TIPp->hfbr_tiID[port-1] as an offset, for a port that is not 0. Below port 1 it lies in front
-- of the array.
abbrev pub hfbr_reg : ℤ → ℕ
hfbr_reg (pos p) = Reg.hfbr_ti_id + 4 * p - 4
hfbr_reg (negsuc n) = Reg.hfbr_ti_id - 4 * (n + 2)

module _ (dev : Device) where
  pub tip_set_crate_id : ℕ → M ℤ
  tip_set_crate_id crate_id = do
    g ← globals
    if not g.opened then pure error else if ltb 0xff crate_id then pure error else do
      tiplock
      v ← tip_read dev Reg.board_id
      tip_write Reg.board_id (bit_or (bit_and v (not32 Macro.boardid_crateid_mask)) crate_id)
      tipunlock
      pure ok

  -- An invalid port is only printed: the read goes on.
  pub tip_get_crate_id : ℤ → M ℤ
  tip_get_crate_id port = do
    g ← globals
    if not g.opened then pure error else do
      tiplock
      v ← tip_read dev (if equals port 0 then Reg.master_ti_id else hfbr_reg port)
      tipunlock
      pure (to_int (bit_and v Macro.id_crateid_mask / 2 ^ 8))

  pub tip_get_port_trig_src_enabled : ℤ → M ℤ
  tip_get_port_trig_src_enabled port = do
    g ← globals
    if not g.opened then pure error else do
      tiplock
      v ← tip_read dev (if equals port 0 then Reg.master_ti_id else hfbr_reg port)
      tipunlock
      pure (to_int (bit_and v Macro.id_trigsrc_enable_mask))

  pub tip_get_slave_blocklevel : ℤ → M ℤ
  tip_get_slave_blocklevel port = do
    g ← globals
    if not g.opened then pure error else do
      tiplock
      v ← tip_read dev (hfbr_reg port)
      tipunlock
      pure (to_int (bit_and v Macro.id_blocklevel_mask / 2 ^ 16))

  pub tip_reset : M ℤ
  tip_reset = do
    g ← globals
    if not g.opened
        then pure error
        else do tiplock; tip_write Reg.reset Macro.reset_soft; tipunlock; pure ok

  pub tip_clock_resync : M ℤ
  tip_clock_resync = do
    g ← globals
    if not g.opened then pure error else do
      tiplock
      tip_write Reg.sync_command Macro.synccommand_ad9510_resync
      tipunlock
      pure ok
