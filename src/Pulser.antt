-- ===== src/Pulser.antt =====
-- TIpcieLib.c: triggers that the card makes itself, the shape of trigger pulses, and prescales.
pub mod Idle
pub mod Closed
pub mod Prescale
pub mod Soft
use tipcie.Prelude.{
  ℕ, ◌-◌, ◌*◌, ◌/◌, ◌%◌, ◌^◌, not, ◌||◌, bit_and, bit_or, Option, none, some, ℤ, ok, error, above,
  negative, equals, truthy, to_u32, to_int, ltb, if◌then◌else◌, Bool,
}
use tipcie.Bits.Fields.{not32}
use tipcie.Machine.{Device, M, pure, ◌>>=◌, ◌>>◌, globals, tiplock, tipunlock, tip_read, tip_write}
use tipcie.Machine.Reg
use tipcie.Machine.Macro

-- The two triggers, as the functions below number them.
abbrev is_trigger : ℤ → Bool
is_trigger trigger = equals trigger 1 || equals trigger 2

-- `x << k` on an `unsigned int`.
abbrev pub shl : ℕ → ℕ → ℕ
shl x k = x * 2 ^ k % 2 ^ 32

-- `nevents` triggers, one each 32 + 8 * period_inc ns, or with range 1 each
-- 32 + 8 * 2048 * period_inc ns.
pub tip_soft_trig : ℤ → ℕ → ℕ → ℤ → M ℤ
tip_soft_trig trigger nevents period_inc range = do
  g ← globals
  if not g.opened
      then pure error
      else if not (is_trigger trigger)
      then pure error
      else if ltb Macro.fixedpulser1_ntriggers_mask nevents
      then pure error
      else if ltb (Macro.fixedpulser1_period_mask / 2 ^ 16) period_inc
      then pure error
      else if not (equals range 0 || equals range 1)
      then pure error
      else do
        let reg = bit_or (bit_or (shl (to_u32 range) 31) (shl period_inc 16)) nevents
        tiplock
        if equals trigger 1
            then tip_write Reg.fixed_pulser1 reg
            else tip_write Reg.fixed_pulser2 reg
        tipunlock
        pure ok

-- A negative setting passes the test.
pub tip_set_random_trigger : ℤ → ℤ → M ℤ
tip_set_random_trigger trigger setting = do
  g ← globals
  if not g.opened
      then pure error
      else if not (is_trigger trigger)
      then pure error
      else if above setting Macro.randompulser_trig1_rate_mask
      then pure error
      else do
        let rate = bit_or (to_u32 setting) (shl (to_u32 setting) 4)
        tiplock
        if equals trigger 1
            then tip_write Reg.random_pulser (bit_or rate Macro.randompulser_trig1_enable)
            else tip_write Reg.random_pulser (bit_or (shl rate 8) Macro.randompulser_trig2_enable)
        tipunlock
        pure ok

pub tip_disable_random_trigger : M ℤ
tip_disable_random_trigger = do
  g ← globals
  if not g.opened then pure error else do tiplock; tip_write Reg.random_pulser 0; tipunlock; pure ok

pub tip_set_prescale : ℤ → M ℤ
tip_set_prescale prescale = do
  g ← globals
  if not g.opened
      then pure error
      else if negative prescale || above prescale 0xffff
      then pure error
      else do tiplock; tip_write Reg.trig1_prescale (to_u32 prescale); tipunlock; pure ok

pub tip_set_prompt_trigger_width : ℤ → M ℤ
tip_set_prompt_trigger_width width = do
  g ← globals
  if not g.opened
      then pure error
      else if negative width || above width Macro.prompt_trig_width_mask
      then pure error
      else do tiplock; tip_write Reg.event_number_hi (to_u32 width); tipunlock; pure ok

module _ (dev : Device) where
  pub tip_get_prescale : M ℤ
  tip_get_prescale = do
    g ← globals
    if not g.opened
        then pure error
        else do tiplock; rval ← tip_read dev Reg.trig1_prescale; tipunlock; pure (to_int rval)

  -- What was read is not what is returned.
  pub tip_get_prompt_trigger_width : M ℤ
  tip_get_prompt_trigger_width = do
    g ← globals
    if not g.opened
        then pure error
        else do tiplock; v ← tip_read dev Reg.event_number_hi; tipunlock; pure ok

  -- TIP_INPUTPRESCALE_FP_MASK(input) is four bits wide.
  pub tip_set_input_prescale : ℤ → ℤ → M ℤ
  tip_set_input_prescale input prescale = do
    g ← globals
    if not g.opened
        then pure error
        else if negative prescale || above prescale 0xf
        then pure error
        else if not (above input 0) || above input 6
        then pure error
        else do
          let shift = 4 * (to_u32 input - 1)
          tiplock
          v ← tip_read dev Reg.input_prescale
          let oldval = bit_and v (not32 (0xf * 2 ^ shift))
          tip_write Reg.input_prescale (bit_or oldval (to_u32 prescale * 2 ^ shift))
          tipunlock
          pure ok

  -- The input is not checked; `none` is a shift that C leaves undefined.
  pub tip_get_input_prescale : ℤ → M (Option ℤ)
  tip_get_input_prescale input = do
    g ← globals
    if not g.opened
        then pure (some error)
        else if not (above input 0) || above input 7
        then pure none
        else do
          let shift = 4 * (to_u32 input - 1)
          tiplock
          v ← tip_read dev Reg.input_prescale
          tipunlock
          pure (some (to_int (bit_and v (0xf * 2 ^ shift) / 2 ^ shift)))

  -- A width out of range is only printed.
  pub tip_set_trigger_pulse : ℤ → ℤ → ℤ → ℤ → M ℤ
  tip_set_trigger_pulse trigger delay width delay_step = do
    g ← globals
    if not g.opened
        then pure error
        else if not (is_trigger trigger)
        then pure error
        else if negative delay || above delay 0x7f
        then pure error
        else do
          tiplock
          rval ← tip_read dev Reg.trig_delay
          let first = equals trigger 1
          let kept = bit_and rval (not32 (if first then 0xffff else 0xffff_0000))
          let pulse =
              if first
              then bit_or (to_u32 delay) (shl (to_u32 width) 8)
              else bit_or (shl (to_u32 delay) 16) (shl (to_u32 width) 24)
          let step =
              if first then Macro.trigdelay_trig1_64ns_step else Macro.trigdelay_trig2_64ns_step
          let set = bit_or kept pulse
          tip_write Reg.trig_delay (if truthy delay_step then bit_or set step else set)
          tipunlock
          pure ok
