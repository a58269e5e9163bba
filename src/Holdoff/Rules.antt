-- ===== src/Holdoff/Rules.antt =====
-- Each trigger rule set and read back, and the clock of the rules.
use tipcie.Prelude.{
  ℕ, zero, suc, ◌+◌, ◌*◌, ◌%◌, ◌^◌, ◌<◌, ◌≤◌, bit_and, bit_or, true, false, not, ◌||◌, ℤ, ok, pos,
  equals, truthy, ltb, if◌then◌else◌, ◌==◌, each_case, ◌∷◌, ◌≡◌, refl, ap, arith, Bool-cases, inl,
  inr, ◌∙◌,
}
use tipcie.Bits.Fields.{not32, field, and-field, or-low}
use tipcie.Bits.Insert.{put_field, insert_left-put_field, or-mask-put_field, and-not32-put_field}
use tipcie.Machine.{Device, World, read, write, lock, unlock}
use tipcie.Machine.Reg
use tipcie.Machine.Macro
use tipcie.Machine.Registers.{stored, Remembers}
use tipcie.Bits.{or_comm}
use tipcie.Bits.Slots.{put_field-small, field-put_field}
use tipcie.Holdoff.{tip_set_trigger_holdoff, tip_get_trigger_holdoff, holdoff_word, rule_value}

module _ (x v : ℕ) (hx : x < 2 ^ 8) (hv : v < 2 ^ 32) where
  HasWord : ℕ → Type 0
  HasWord b = holdoff_word (pos (suc b)) x v ≡ put_field (8 * b) 8 x v

  holdoff_word-put_field :
      (b : ℕ) → b < 4 → holdoff_word (pos (suc b)) x v ≡ put_field (8 * b) 8 x v
  unfolding HasWord holdoff_word
  holdoff_word-put_field = each_case HasWord 4 (
    (let e : x ≡ x * 2 ^ 0 = omega arith in
        ap (λ (z : ℕ). bit_or z (bit_and v (not32 0xff))) e
        ∙ insert_left-put_field 0 8 v hv (omega arith) x hx),
    (
      insert_left-put_field 8 8 v hv (omega arith) x hx,
      (
        insert_left-put_field 16 8 v hv (omega arith) x hx,
        (insert_left-put_field 24 8 v hv (omega arith) x hx, tt),
      ),
    ),
  )

HasValue : (v : ℕ) → ℕ → Type 0
HasValue v a = rule_value (pos (suc a)) v ≡ field (8 * a) 8 v

rule_value-field : (v a : ℕ) → a < 4 → rule_value (pos (suc a)) v ≡ field (8 * a) 8 v
unfolding HasValue rule_value
rule_value-field v = each_case (HasValue v) 4 (
  omega (arith, and-field 0 8 v),
  (
    omega (arith, and-field 8 8 v),
    (omega (arith, and-field 16 8 v), (omega (arith, and-field 24 8 v), tt)),
  ),
)

abbrev stepped : ℕ → ℤ → ℕ
stepped value timestep = value + (if truthy timestep then 0x80 else 0)

module _ (dev : Device) (start : ℕ) (mem : Remembers dev Reg.trigger_rule start) where
  get_run :
      (w : World)
      → w.lib.opened ≡ true
      → (a : ℕ) → a < 4
      → (tip_get_trigger_holdoff dev (pos (suc a)) w).0
        ≡ pos (field (8 * a) 8 (stored Reg.trigger_rule start w.log))
  unfolding tip_get_trigger_holdoff
  get_run w opened a lt =
      let v = stored Reg.trigger_rule start w.log in
      let guard : not (ltb 0 (suc a)) || ltb 5 (suc a) ≡ false = ground arith in
      let value = rule_value-field v a lt in
      rw (opened, guard, mem (lock ∷ w.log), value) (ground arith)

  module _ (start' : ℕ) (mem' : Remembers dev Reg.vme_control start') (w : World)
      (opened : w.lib.opened ≡ true) (value : ℕ) (hi : value ≤ 0x7f) (timestep : ℤ) where
    abbrev control : ℕ
    control =
        let y = stored Reg.vme_control start' w.log in
        put_field 31 1 (if equals timestep 2 then 1 else 0) y

    abbrev after : ℕ → World
    after b =
        let v = stored Reg.trigger_rule start w.log in
        let y = stored Reg.vme_control start' w.log in
        let x = put_field (8 * b) 8 (stepped value timestep) v in
        record w {
          log =
              unlock
              ∷ write Reg.vme_control control
              ∷ read Reg.vme_control y
              ∷ write Reg.trigger_rule x
              ∷ read Reg.trigger_rule v
              ∷ lock
              ∷ w.log;
        }

    set_run :
        (b : ℕ) → b < 4 → tip_set_trigger_holdoff dev (pos (suc b)) value timestep w ≡ (ok, after b)
    unfolding tip_set_trigger_holdoff
    set_run b lt =
        let v = stored Reg.trigger_rule start w.log in
        let y = stored Reg.vme_control start' w.log in
        let x = stepped value timestep in
        let old = mem (lock ∷ w.log) in
        let y_fits : y < 2 ^ 32 = omega (arith, mem' w.log) in
        let guard : not (ltb 0 (suc b)) || ltb 5 (suc b) ≡ false = ground arith in
        let allowed : ltb 0x7f value ≡ false = ground arith in
        let step : (if truthy timestep then bit_or value 0x80 else value) ≡ x =
          ground (arith, or-low 7 1 value (omega arith), or_comm value 0x80) in
        let word = holdoff_word-put_field x v (ground arith) (omega (arith, old)) b lt in
        let whole : put_field (8 * b) 8 x v % 2 ^ 32 ≡ put_field (8 * b) 8 x v =
          omega (arith, put_field-small x v (ground arith) (omega (arith, old)) b lt) in
        let z = mem' (
          write Reg.trigger_rule (put_field (8 * b) 8 x v)
          ∷ read Reg.trigger_rule v
          ∷ lock
          ∷ w.log) in
        elim (Bool-cases (equals timestep 2)) [
          | inl slow ↦
              let c : bit_or y Macro.vmecontrol_slower_trigger_rules % 2 ^ 32 ≡ put_field 31 1 1 y =
                omega (arith, or-mask-put_field 31 1 y, y_fits) in
              rw (opened, guard, allowed, step, old, word, whole, z, slow, c) refl
          | inr fast ↦
              let c : bit_and y (not32 Macro.vmecontrol_slower_trigger_rules) % 2 ^ 32
                  ≡ put_field 31 1 0 y =
                omega (arith, and-not32-put_field 31 1 y y_fits (omega arith)) in
              rw (opened, guard, allowed, step, old, word, whole, z, fast, c) refl
        ]

    -- On an open library whose card remembers the two registers, for rules from 1 to 4 and a value
    -- of at most 0x7f: tip_set_trigger_holdoff returns OK; tip_get_trigger_holdoff of the same rule
    -- then returns the value, plus 0x80 if a time step is given, and of another rule what it
    -- returned before; and bit 31 of the VME control register is 1 for time step 2, otherwise 0,
    -- with its other bits kept.
    pub tip_set_trigger_holdoff-get :
        (rule other : ℕ)
        → 1 ≤ rule
        → rule ≤ 4
        → 1 ≤ other
        → other ≤ 4
        → let r = tip_set_trigger_holdoff dev (pos rule) value timestep w in
          (r.0 ≡ ok)
          × ((tip_get_trigger_holdoff dev (pos other) r.1).0 ≡ (
              if other == rule
              then pos (value + (if truthy timestep then 0x80 else 0))
              else (tip_get_trigger_holdoff dev (pos other) w).0))
          × (stored Reg.vme_control start' r.1.log
              ≡ put_field 31 1
                  (if equals timestep 2 then 1 else 0)
                  (stored Reg.vme_control start' w.log))
    tip_set_trigger_holdoff-get zero other lo1 hi1 lo2 hi2 = absurd (omega arith)
    tip_set_trigger_holdoff-get (suc b) zero lo1 hi1 lo2 hi2 = absurd (omega arith)
    tip_set_trigger_holdoff-get (suc b) (suc a) lo1 hi1 lo2 hi2 =
        let v = stored Reg.trigger_rule start w.log in
        let fits : v < 2 ^ 32 = omega (arith, mem w.log) in
        let x = stepped value timestep in
        let small : x < 2 ^ 8 = ground arith in
        let new = get_run (after b) opened a (omega arith) in
        let before = get_run w opened a (omega arith) in
        let slot = field-put_field x v small fits a (omega arith) b (omega arith) in
        let whole : put_field (8 * b) 8 x v % 2 ^ 32 ≡ put_field (8 * b) 8 x v =
          omega (arith, put_field-small x v small fits b (omega arith)) in
        rw (set_run b (omega arith), new, before, whole, slot)
          (refl, ground arith, ground (arith, mem' w.log))
