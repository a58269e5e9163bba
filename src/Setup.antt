-- ===== src/Setup.antt =====
-- TIpcieLib.c: opening and closing the card, its firmware's version, and the way data are moved.
pub mod Idle
pub mod Closed
pub mod Reopen
use tipcie.Prelude.{
  ℕ, ◌*◌, ◌%◌, ◌^◌, Bool, true, not, ◌||◌, bit_and, bit_or, ℤ, ok, error, above, negative, equals,
  truthy, to_u32, ltb, if◌then◌else◌,
}
use tipcie.Bits.Fields.{not32}
use tipcie.Machine.{
  Device, M, pure, ◌>>=◌, ◌>>◌, globals, update, tiplock, tipunlock, usleep, tip_read, tip_write,
  tip_jtag_read, tip_jtag_write,
}
use tipcie.Machine.Reg
use tipcie.Machine.Macro

-- What the operating system answers: the descriptor of `open`, and whether the request for the
-- PCI bars, the map of the registers and the map of the JTAG memory succeed.
pub record Os : Type 0 where
  pub open_fd : ℤ
  pub has_bars : Bool
  pub maps_registers : Bool
  pub maps_jtag : Bool

unfoldable pub tip_open : Os → M ℤ
tip_open os = do
  g ← globals
  if above g.fd 0 then pure error else do
    update λ g. record g { fd = os.open_fd }
    if negative os.open_fd
        then pure error
        else if not os.has_bars
        then pure error
        else if not os.maps_registers
        then pure error
        else do update λ g. record g { opened = true }; if os.maps_jtag then pure ok else pure error

-- The maps and the file are given back; no variable of the library is changed.
pub tip_close : M ℤ
tip_close = do g ← globals; if not g.opened then pure error else pure ok

pub tip_reset_mgt : M ℤ
tip_reset_mgt = do
  g ← globals
  if not g.opened
      then pure error
      else if not (truthy g.master)
      then pure error
      else do tiplock; tip_write Reg.reset Macro.reset_mgt; tipunlock; usleep 10; pure ok

module _ (dev : Device) where
  -- An `unsigned int` that is shown as an `int`: ERROR is its largest value.
  pub tip_get_firmware_version : M ℕ
  tip_get_firmware_version = do
    g ← globals
    if not g.opened then pure 0xffff_ffff else do
      tiplock
      tip_write Reg.reset Macro.reset_jtag
      usleep 10000
      tip_jtag_write 0x3c 0
      usleep 10000
      tip_jtag_write 0x26c 0x3c8
      usleep 10000
      tip_jtag_write 0x7dc 0
      usleep 10000
      rval ← tip_jtag_read dev 0x00
      tipunlock
      pure rval

  pub tip_enable_fifo : M ℤ
  tip_enable_fifo = do
    g ← globals
    if not g.opened then pure error else do
      tiplock
      v ← tip_read dev Reg.vme_control
      tip_write Reg.vme_control (bit_and v (not32 Macro.vmecontrol_dmasetting_mask))
      tip_write Reg.roc_enable Macro.rocenable_fifo_enable
      tipunlock
      pure ok

  pub tip_dma_config : ℤ → ℤ → ℤ → M ℤ
  tip_dma_config packet_size adr_mode dma_size = do
    g ← globals
    if not g.opened
        then pure error
        else if not (equals packet_size 1 || equals packet_size 2 || equals packet_size 4)
        then pure error
        else do
          tiplock
          v ← tip_read dev Reg.dma_setting
          let high = bit_and v Macro.dmasetting_phys_addr_hi_mask
          tip_write Reg.dma_setting (
              bit_or
                (bit_or (bit_or high (to_u32 packet_size * 2 ^ 24 % 2 ^ 32))
                  (to_u32 dma_size * 2 ^ 28 % 2 ^ 32))
                (to_u32 adr_mode * 2 ^ 31 % 2 ^ 32))
          c ← tip_read dev Reg.vme_control
          tip_write Reg.vme_control (bit_or c Macro.vmecontrol_dma_data_enable)
          tipunlock
          pure ok

  pub tip_dma_set_addr : ℕ → ℕ → M ℤ
  tip_dma_set_addr phys_addr_lo phys_addr_hi = do
    g ← globals
    if not g.opened then pure error else do
      tiplock
      if ltb 0 phys_addr_hi
          then (do
            v ← tip_read dev Reg.dma_setting
            tip_write Reg.dma_setting (
                bit_or (bit_and v (not32 Macro.dmasetting_phys_addr_hi_mask))
                  (bit_and phys_addr_hi Macro.dmasetting_phys_addr_hi_mask)))
          else pure tt
      tip_write Reg.dma_addr phys_addr_lo
      tipunlock
      pure ok
