-- ===== src/History.antt =====
-- TIpcieLib.c: the sync codes that the card received, and the sync reset at a user's command.
pub mod Idle
pub mod Closed
pub mod Loop
use tipcie.Prelude.{
  ℕ, zero, suc, ◌+◌, ◌/◌, ◌^◌, Bool, not, bit_and, bit_or, Option, none, some, ℤ, pos, ok, error,
  truthy, to_int, ltb, ◌==◌, if◌then◌else◌,
}
use tipcie.Bits.Fields.{not32}
use tipcie.Machine.{
  Device, M, pure, ◌>>=◌, ◌>>◌, globals, tiplock, tipunlock, usleep, tip_read, tip_write,
}
use tipcie.Machine.Reg
use tipcie.Machine.Macro

-- The loop over the history ends by itself after 1025 turns; this is one more.
abbrev pub history_fuel : ℕ
history_fuel = 1026

-- The code of an entry: a master's comes from its own loop, a slave's over the fiber.
history_code : Bool → ℕ → ℕ
history_code master sync_history =
    if master
    then bit_and sync_history Macro.synchistory_loopback_code_mask / 2 ^ 10
    else bit_and sync_history Macro.synchistory_hfbr1_code_mask

pub tip_reset_sync_history : M (Unit {0})
tip_reset_sync_history = do
  g ← globals
  if not g.opened
      then pure tt
      else do tiplock; tip_write Reg.reset Macro.reset_sync_history; tipunlock

pub tip_user_sync_reset : ℤ → M (Unit {0})
tip_user_sync_reset enable = do
  g ← globals
  if not g.opened then pure tt else do
    tiplock
    if truthy enable
        then tip_write Reg.sync_command Macro.synccommand_syncreset_high
        else tip_write Reg.sync_command Macro.synccommand_syncreset_low
    usleep 20000
    tipunlock

module _ (dev : Device) where
  pub tip_set_user_sync_reset_receive : ℤ → M ℤ
  tip_set_user_sync_reset_receive enable = do
    g ← globals
    if not g.opened then pure error else do
      tiplock
      v ← tip_read dev Reg.sync
      if truthy enable
          then tip_write Reg.sync
              (bit_or (bit_and v Macro.sync_sourcemask) Macro.sync_user_syncreset_enabled)
          else tip_write Reg.sync
              (bit_and (bit_and v Macro.sync_sourcemask) (not32 Macro.sync_user_syncreset_enabled))
      tipunlock
      pure ok

  -- The flag only asks for a message, as in the other calls.
  pub tip_get_last_sync_codes : ℤ → M ℤ
  tip_get_last_sync_codes pflag = do
    g ← globals
    if not g.opened then pure error else do
      tiplock
      v ← tip_read dev Reg.sync
      tipunlock
      pure (
          to_int (
            if truthy g.master
            then bit_and (bit_and v Macro.sync_loopback_code_mask / 2 ^ 16) 0xf
            else bit_and (bit_and v Macro.sync_hfbr1_code_mask / 2 ^ 8) 0xf))

  pub tip_get_sync_history_buffer_status : ℤ → M ℤ
  tip_get_sync_history_buffer_status pflag = do
    g ← globals
    if not g.opened then pure error else do
      tiplock
      v ← tip_read dev Reg.sync
      tipunlock
      let hist_status = bit_and v Macro.sync_history_fifo_mask
      pure (
          if hist_status == Macro.sync_history_fifo_empty
          then pos 0
          else if hist_status == Macro.sync_history_fifo_half_full
          then pos 1
          else pos 2)

  -- One turn of the loop: an entry is read, and its code comes back.
  history_turn : Bool → M ℕ
  unfolding history_code
  history_turn master = do
    tiplock
    sync_history ← tip_read dev Reg.sync_history
    tipunlock
    pure (history_code master sync_history)

  -- The loop, with `count` entries printed so far; the number printed comes back, `none` when the
  -- fuel runs out.
  history_loop : (fuel : ℕ) → Bool → (count : ℕ) → M (Option ℕ)
  unfolding history_turn
  history_loop zero master count = pure none
  history_loop (suc fuel) master count = do
    code ← history_turn master
    let rest = history_loop fuel master (count + 1)
    if ltb 1024 (count + 1)
        then pure (some (count + 1))
        else if not (code == 0)
        then rest
        else pure (some (count + 1))

  -- The number of entries that were printed.
  pub tip_print_sync_history : M (Option ℕ)
  unfolding history_loop
  tip_print_sync_history = do
    g ← globals
    if not g.opened then pure (some 0) else history_loop history_fuel (truthy g.master) 0
