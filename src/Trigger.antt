-- ===== src/Trigger.antt =====
-- TIpcieLib.c: which trigger sources are used, and turning them on and off.
pub mod Idle
pub mod Closed
pub mod Sources
use tipcie.Prelude.{
  ℕ, Bool, true, false, not, ◌||◌, ◌&&◌, bit_and, bit_or, Option, none, some, ℤ, ok, error, above,
  negative, truthy, to_u32, leb, ◌==◌, if◌then◌else◌,
}
use tipcie.Machine.{
  Device, M, pure, ◌>>=◌, ◌>>◌, globals, update, tiplock, tipunlock, tip_read, tip_write,
}
use tipcie.Machine.Reg
use tipcie.Machine.Macro

-- The bit of a partition of the trigger supervisor, 6 to 9.
partition_bit : ℕ → ℕ
partition_bit trig =
    if trig == Macro.trigger_part_1
    then Macro.trigsrc_part_1
    else if trig == Macro.trigger_part_2
    then Macro.trigsrc_part_2
    else if trig == Macro.trigger_part_3
    then Macro.trigsrc_part_3
    else if trig == Macro.trigger_part_4
    then Macro.trigsrc_part_4
    else 0

-- A slave takes its triggers from fiber 1, whatever it is told.
slave_source : ℕ → ℕ
unfolding partition_bit
slave_source trig =
    if leb 6 trig && leb trig 9
    then bit_or (bit_or Macro.trigsrc_vme Macro.trigsrc_hfbr1) (partition_bit trig)
    else bit_or Macro.trigsrc_vme Macro.trigsrc_hfbr1

master_bits : ℕ → Option ℕ
master_bits trig =
    if trig == Macro.trigger_p0
    then some Macro.trigsrc_p0
    else if trig == Macro.trigger_hfbr1
    then some Macro.trigsrc_hfbr1
    else if trig == Macro.trigger_fptrg
    then some Macro.trigsrc_fptrg
    else if trig == Macro.trigger_tsinputs
    then some Macro.trigsrc_tsinputs
    else if trig == Macro.trigger_tsrev2
    then some Macro.trigsrc_tsrev2
    else if trig == Macro.trigger_pulser
    then some Macro.trigsrc_pulser
    else if trig == Macro.trigger_trig21
    then some (bit_or Macro.trigsrc_pulser Macro.trigsrc_trig21)
    else none

-- The two switches of tipSetTriggerSource; `none` is their default case for a master.
trigger_enable : (master : Bool) → ℕ → Option ℕ
unfolding slave_source master_bits
trigger_enable false trig = some (slave_source trig)
trigger_enable true trig = elim (master_bits trig) [
  | none ↦ none
  | some bits ↦ some (bit_or (bit_or Macro.trigsrc_vme Macro.trigsrc_loopback) bits)
]

store_source : Option ℕ → M ℤ
store_source none = pure error
store_source (some bits) = do update λ g. record g { trigger_source = bits }; pure ok

pub tip_set_trigger_source : ℤ → M ℤ
unfolding trigger_enable store_source
tip_set_trigger_source trig = do
  g ← globals
  if not g.opened
      then pure error
      else if above trig 10 || negative trig
      then pure error
      else store_source (trigger_enable (truthy g.master) (to_u32 trig))

-- The comparison is one of `int`s: a negative mask passes.
pub tip_set_trigger_source_mask : ℤ → M ℤ
tip_set_trigger_source_mask trigmask = do
  g ← globals
  if not g.opened
      then pure error
      else if above trigmask Macro.trigsrc_sourcemask
      then pure error
      else do update λ g. record g { trigger_source = to_u32 trigmask }; pure ok

unfoldable pub tip_enable_trigger_source : M ℤ
tip_enable_trigger_source = do
  g ← globals
  if not g.opened
      then pure error
      else do tiplock; tip_write Reg.trigsrc g.trigger_source; tipunlock; pure ok

pub tip_fill_to_end_block : M ℤ
tip_fill_to_end_block = do
  g ← globals
  if not g.opened
      then pure error
      else if not (truthy g.master)
      then pure error
      else do tiplock; tip_write Reg.reset Macro.reset_fill_to_end_block; tipunlock; pure ok

pub tip_disable_trigger_source : ℤ → M ℤ
tip_disable_trigger_source fflag = do
  g ← globals
  if not g.opened then pure error else do
    tiplock
    tip_write Reg.trigsrc (if truthy g.master then Macro.trigsrc_loopback else 0)
    tipunlock
    if truthy fflag && truthy g.master then tip_fill_to_end_block else pure ok
    pure ok

pub tip_trigger_ready_reset : M (Unit {0})
tip_trigger_ready_reset = do
  g ← globals
  if not g.opened
      then pure tt
      else if not (truthy g.master)
      then pure tt
      else do tiplock; tip_write Reg.sync_command Macro.synccommand_trigger_ready_reset; tipunlock

module _ (dev : Device) where
  pub tip_force_send_trigger_source_enable : M ℤ
  tip_force_send_trigger_source_enable = do
    g ← globals
    if not g.opened then pure error else do
      tiplock
      v ← tip_read dev Reg.trigsrc
      tip_write Reg.trigsrc (bit_or (bit_and v Macro.trigsrc_sourcemask) Macro.trigsrc_force_send)
      tipunlock
      pure ok
