-- ===== src/Init.antt =====
-- tipInit of TIpcieLib.c.
pub mod Board
use tipcie.Prelude.{
  ℕ, ◌*◌, ◌/◌, ◌%◌, ◌^◌, Bool, false, not, ◌||◌, ◌&&◌, bit_and, ℤ, pos, ok, error, equals, to_u32,
  ltb, ◌==◌, if◌then◌else◌,
}
use tipcie.Machine.{Device, M, pure, ◌>>=◌, ◌>>◌, globals, update, usleep, tip_read, tip_write}
use tipcie.Machine.Reg
use tipcie.Machine.Macro
use tipcie.Block.{tip_set_block_level}
use tipcie.Buffer.{tip_set_block_buffer_level}
use tipcie.Crate.{tip_reset, tip_set_crate_id}
use tipcie.Trigger.{tip_disable_trigger_source, tip_set_trigger_source}
use tipcie.Pulser.{tip_set_trigger_pulse, tip_set_prescale}
use tipcie.Sync.{tip_set_sync_source, tip_set_sync_delay_width, tip_trig_link_reset}
use tipcie.Inputs.{tip_set_event_format, tip_disable_ts_input}
use tipcie.Fiber.{tip_set_busy_source, tip_enable_fiber, tip_set_clock_source}
use tipcie.Latency.{fiber_meas}
use tipcie.Setup.{
  Os, tip_open, tip_reset_mgt, tip_get_firmware_version, tip_enable_fifo, tip_dma_config,
  tip_dma_set_addr,
}

-- A bit of the initialisation flag.
abbrev pub flag : ℕ → ℕ → Bool
flag i_flag bit = not (bit_and i_flag bit == 0)

-- TIPp=NULL; return ERROR;
forget : M ℤ
forget = do update λ g. record g { opened = false }; pure error

module _ (dev : Device) (os : Os) where
  -- The board must answer, and be a TI.
  pub check_board : M ℤ
  unfolding forget
  check_board = do
    rval ← tip_read dev Reg.board_id
    if rval == 0xffff_ffff
        then forget
        else if bit_and rval Macro.boardid_type_mask / 2 ^ 16 == Macro.boardid_type_ti
        then pure ok
        else forget

  -- Type and version of the firmware must be those that are supported, unless the caller says not
  -- to look.
  pub check_firmware : Bool → M ℤ
  unfolding forget
  check_firmware skip = do
    info ← tip_get_firmware_version dev
    if not (ltb 0 info) then pure error else do
      let version = bit_and info 0xfff
      let type = bit_and info Macro.firmware_type_mask / 2 ^ 12
      update λ g. record g { version = version }
      if not (type == Macro.supported_type) && not skip
          then forget
          else if not (version == Macro.supported_firmware) && not skip
          then forget
          else pure ok

  set_up_data : M (Unit {0})
  set_up_data = do
    g ← globals
    if g.use_dma
        then (do tip_dma_config dev (pos 1) (pos 0) (pos 2); tip_dma_set_addr dev 0 0; pure tt)
        else (do tip_enable_fifo dev; pure tt)

  set_up_master : M (Unit {0})
  set_up_master = do
    update λ g. record g { master = pos 1; slave_mask = 0 }
    tip_set_busy_source dev Macro.busy_loopback (pos 1)
    tip_set_clock_source dev Macro.clock_internal
    tip_set_sync_source Macro.sync_loopback
    pure tt

  set_up_slave : M (Unit {0})
  set_up_slave = do
    update λ g. record g { master = pos 0 }
    tip_set_busy_source dev 0 (pos 1)
    tip_enable_fiber dev 1
    tip_set_clock_source dev 1
    tip_set_sync_source Macro.sync_hfbr1
    tip_set_trigger_source (pos Macro.trigger_hfbr1)
    pure tt

  -- A slave lines itself up with its fiber, a master resets the trigger link. The registers are
  -- written without the mutex.
  align : M ℤ
  align = do
    g ← globals
    if equals g.master 1
        then (do
          tip_write Reg.reset Macro.reset_iodelay
          usleep 10
          tip_write Reg.reset Macro.reset_autoalign_hfbr1_sync
          usleep 10
          tip_trig_link_reset
          usleep 10
          pure ok)
        else (do
          measured ← fiber_meas dev
          if not (equals measured 0) then pure error else do
            tip_write Reg.sync_width 0x24
            tip_write Reg.reset Macro.reset_iodelay
            usleep 10
            tip_write Reg.reset Macro.reset_autoalign_hfbr1_sync
            usleep 10
            tip_write Reg.reset Macro.reset_measure_latency
            usleep 10
            tip_write Reg.reset Macro.reset_fiber_auto_align
            usleep 10
            pure ok)

  set_defaults : M ℤ
  set_defaults = do
    g ← globals
    let is_master = equals g.master 1
    if is_master then tip_set_sync_delay_width 0x54 0x2f (pos 0) else pure tt
    if is_master
        then tip_write Reg.fiber_sync_delay (
            bit_and (to_u32 g.fiber_latency_offset * 2 ^ 16 % 2 ^ 32)
              Macro.fibersyncdelay_loopback_syncdelay_mask)
        else pure tt
    if is_master then tip_set_block_level dev (pos 1) else pure ok
    tip_set_crate_id dev (to_u32 g.crate_id)
    tip_set_event_format dev (pos 3)
    tip_set_trigger_pulse dev (pos 1) (pos 0) (pos 15) (pos 0)
    tip_set_trigger_pulse dev (pos 2) (pos 0) (pos 15) (pos 0)
    tip_set_prescale (pos 0)
    if is_master then tip_reset_mgt else pure ok
    tip_set_block_buffer_level dev 1
    tip_disable_ts_input dev Macro.tsinput_all
    pure ok

  -- The board is set up for a mode: 0 and 2 for a master, 1 and 3 for a slave.
  pub set_up_board : ℕ → M ℤ
  unfolding set_up_data set_up_master set_up_slave align set_defaults
  set_up_board mode = do
    tip_reset dev
    set_up_data
    if not (ltb mode 4) then pure error else do
      if mode % 2 == 0 then set_up_master else set_up_slave
      update λ g. record g { readout_mode = mode }
      aligned ← align
      if not (equals aligned 0) then pure error else set_defaults

  pub tip_init : ℕ → ℕ → M ℤ
  unfolding check_board check_firmware
  tip_init mode i_flag = do
    let no_board_init = flag i_flag Macro.init_no_init
    update λ g. record g { use_dma = flag i_flag Macro.init_use_dma || g.use_dma }
    g ← globals
    opened ← if g.opened then pure ok else tip_open os
    if not (equals opened 0) then pure error else do
      board ← check_board
      if not (equals board 0) then pure error else do
        if no_board_init then pure ok else tip_disable_trigger_source (pos 0)
        firmware ← check_firmware (flag i_flag Macro.init_skip_firmware_check)
        if not (equals firmware 0)
            then pure error
            else if no_board_init
            then pure ok
            else set_up_board mode
