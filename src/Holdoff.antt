-- ===== src/Holdoff.antt =====
-- TIpcieLib.c: the trigger rules, which hold triggers off for some time after earlier ones.
pub mod Idle
pub mod Closed
pub mod Rules
pub mod Minima
use tipcie.Prelude.{
  ℕ, ◌*◌, ◌/◌, ◌^◌, not, ◌||◌, bit_and, bit_or, ℤ, ok, error, above, equals, truthy, to_int, ltb,
  if◌then◌else◌,
}
use tipcie.Bits.Fields.{not32}
use tipcie.Machine.{Device, M, pure, ◌>>=◌, ◌>>◌, globals, tiplock, tipunlock, tip_read, tip_write}
use tipcie.Machine.Reg
use tipcie.Machine.Macro

-- The register of the rules with a byte replaced. For rule 5 the variable keeps its initial 0.
holdoff_word : ℤ → ℕ → ℕ → ℕ
holdoff_word rule value rval =
    if equals rule 1
    then bit_or value (bit_and rval (not32 Macro.triggerrule_rule1_mask))
    else if equals rule 2
    then bit_or (value * 2 ^ 8) (bit_and rval (not32 Macro.triggerrule_rule2_mask))
    else if equals rule 3
    then bit_or (value * 2 ^ 16) (bit_and rval (not32 Macro.triggerrule_rule3_mask))
    else if equals rule 4
    then bit_or (value * 2 ^ 24) (bit_and rval (not32 Macro.triggerrule_rule4_mask))
    else 0

-- The byte of a rule; for rule 5 the whole register.
rule_value : ℤ → ℕ → ℕ
rule_value rule rval =
    if equals rule 1
    then bit_and rval Macro.triggerrule_rule1_mask
    else if equals rule 2
    then bit_and rval Macro.triggerrule_rule2_mask / 2 ^ 8
    else if equals rule 3
    then bit_and rval Macro.triggerrule_rule3_mask / 2 ^ 16
    else if equals rule 4
    then bit_and rval Macro.triggerrule_rule4_mask / 2 ^ 24
    else rval

-- The switch of tipSetTriggerHoldoffMin: the bits that are kept, the enable bit and the shift. For
-- rule 5 all three are 0.
min_bits : ℤ → ℕ × ℕ × ℕ
min_bits rule =
    if equals rule 2
    then (
      not32 (bit_or Macro.triggerrulemin_min2_mask Macro.triggerrulemin_min2_en),
      Macro.triggerrulemin_min2_en,
      8,
    )
    else if equals rule 3
    then (
      not32 (bit_or Macro.triggerrulemin_min3_mask Macro.triggerrulemin_min3_en),
      Macro.triggerrulemin_min3_en,
      16,
    )
    else if equals rule 4
    then (
      not32 (bit_or Macro.triggerrulemin_min4_mask Macro.triggerrulemin_min4_en),
      Macro.triggerrulemin_min4_en,
      24,
    )
    else (0, 0, 0)

-- The switch of tipGetTriggerHoldoffMin: the mask and the shift.
min_field : ℤ → ℕ × ℕ
min_field rule =
    if equals rule 2
    then (Macro.triggerrulemin_min2_mask, 8)
    else if equals rule 3
    then (Macro.triggerrulemin_min3_mask, 16)
    else if equals rule 4
    then (Macro.triggerrulemin_min4_mask, 24)
    else (0, 0)

module _ (dev : Device) where
  -- The time step is kept in the rule's highest bit, and its value 2 in the VME control register.
  pub tip_set_trigger_holdoff : ℤ → ℕ → ℤ → M ℤ
  unfolding holdoff_word
  tip_set_trigger_holdoff rule value timestep = do
    g ← globals
    if not g.opened
        then pure error
        else if not (above rule 0) || above rule 5
        then pure error
        else if ltb 0x7f value
        then pure error
        else do
          let stepped = if truthy timestep then bit_or value (1 * 2 ^ 7) else value
          tiplock
          rval ← tip_read dev Reg.trigger_rule
          tip_write Reg.trigger_rule (holdoff_word rule stepped rval)
          v ← tip_read dev Reg.vme_control
          if equals timestep 2
              then tip_write Reg.vme_control (bit_or v Macro.vmecontrol_slower_trigger_rules)
              else tip_write Reg.vme_control
                  (bit_and v (not32 Macro.vmecontrol_slower_trigger_rules))
          tipunlock
          pure ok

  pub tip_get_trigger_holdoff : ℤ → M ℤ
  unfolding rule_value
  tip_get_trigger_holdoff rule = do
    g ← globals
    if not g.opened
        then pure error
        else if not (above rule 0) || above rule 5
        then pure error
        else do
          tiplock
          rval ← tip_read dev Reg.trigger_rule
          tipunlock
          pure (to_int (rule_value rule rval))

  pub tip_set_trigger_holdoff_min : ℤ → ℕ → M ℤ
  unfolding min_bits
  tip_set_trigger_holdoff_min rule value = do
    g ← globals
    if not g.opened
        then pure error
        else if not (above rule 1) || above rule 5
        then pure error
        else if ltb 0x7f value
        then pure error
        else do
          let (mask, enable, shift) = min_bits rule
          tiplock
          v ← tip_read dev Reg.trigger_rule_min
          tip_write Reg.trigger_rule_min
              (bit_or (bit_or (bit_and v mask) enable) (value * 2 ^ shift))
          tipunlock
          pure ok

  -- The flag only asks for a message.
  pub tip_get_trigger_holdoff_min : ℤ → ℤ → M ℤ
  unfolding min_field
  tip_get_trigger_holdoff_min rule pflag = do
    g ← globals
    if not g.opened
        then pure error
        else if not (above rule 1) || above rule 5
        then pure error
        else do
          let (mask, shift) = min_field rule
          tiplock
          v ← tip_read dev Reg.trigger_rule_min
          tipunlock
          pure (to_int (bit_and (bit_and v mask / 2 ^ shift) (not32 (1 * 2 ^ 8))))
