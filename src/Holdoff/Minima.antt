-- ===== src/Holdoff/Minima.antt =====
-- The least times of the trigger rules set and read back.
use tipcie.Prelude.{
  ℕ, zero, suc, ◌+◌, ◌-◌, ◌*◌, ◌/◌, ◌%◌, ◌^◌, ◌<◌, ◌≤◌, bit_and, bit_or, true, false, not, ◌||◌, ℤ,
  ok, pos, ltb, if◌then◌else◌, ◌==◌, each_case, ◌∷◌, ◌≡◌, refl, arith,
}
use tipcie.Bits.Fields.{not32, mask, field, and-field, and-not_mask}
use tipcie.Bits.Insert.{put_field, insert-put_field}
use tipcie.Machine.{Device, World, read, write, lock, unlock}
use tipcie.Machine.Reg
use tipcie.Machine.Registers.{stored, Remembers}
use tipcie.Bits.Fields.{or-gap, mod-two-pow-lt}
use tipcie.Bits.Slots.{put_field-small, field-put_field}
use tipcie.Holdoff.{tip_set_trigger_holdoff_min, tip_get_trigger_holdoff_min, min_bits, min_field}

-- What the setter makes of the register's word, and the getter.
min_word : (rule : ℤ) (value v : ℕ) → ℕ
unfolding min_bits
min_word rule value v =
    let (kept, enable, shift) = min_bits rule in
    bit_or (bit_or (bit_and v kept) enable) (value * 2 ^ shift)

min_value : ℤ → ℕ → ℕ
unfolding min_field
min_value rule v =
    let (kept, shift) = min_field rule in bit_and (bit_and v kept / 2 ^ shift) (not32 (1 * 2 ^ 8))

module _ (value v : ℕ) (hi : value < 2 ^ 7) (hv : v < 2 ^ 32) where
  -- The enable bit goes in first, then the value below it.
  enable-value :
      (s : ℕ)
      → mask s 8 < 2 ^ 32
      → put_field s 8 0x80 v ≡ (v / 2 ^ s / 2 ^ 8 * 2 + 1) * 2 ^ 7 * 2 ^ s + v % 2 ^ s
      → put_field s 8 (value + 0x80) v ≡ put_field s 8 0x80 v + value * 2 ^ s
      → bit_or (bit_or (bit_and v (not32 (mask s 8))) (0x80 * 2 ^ s)) (value * 2 ^ s)
        ≡ put_field s 8 (value + 0x80) v
  enable-value s hm split sum =
      let gap = or-gap s 7 (v / 2 ^ s / 2 ^ 8 * 2 + 1) (v % 2 ^ s) value (mod-two-pow-lt s v) hi in
      rw (insert-put_field s 8 v hv hm 0x80 (omega arith), split, gap, sum) (omega (arith, split))

  HasWord : ℕ → Type 0
  HasWord b = min_word (pos (suc (suc b))) value v ≡ put_field (8 * suc b) 8 (value + 0x80) v

  min_word-put_field : (b : ℕ) → b < 3 → HasWord b
  unfolding HasWord min_word min_bits
  min_word-put_field = each_case HasWord 3 (
    enable-value 8 (omega arith) (omega arith) (omega arith),
    (
      enable-value 16 (omega arith) (omega arith) (omega arith),
      (enable-value 24 (omega arith) (omega arith) (omega arith), tt),
    ),
  )

small-kept : (x : ℕ) → x < 2 ^ 7 → bit_and x (not32 (1 * 2 ^ 8)) ≡ x
small-kept x h = omega (arith, and-not_mask 8 1 x (omega arith) (omega arith))

HasValue : (v : ℕ) → ℕ → Type 0
HasValue v a = min_value (pos (suc (suc a))) v ≡ field (8 * suc a) 8 v % 2 ^ 7

min_value-field : (v a : ℕ) → a < 3 → HasValue v a
unfolding HasValue min_value min_field
min_value-field v = each_case (HasValue v) 3 (
  (let e : bit_and v 0x7f00 / 2 ^ 8 ≡ field 8 8 v % 2 ^ 7 = omega (arith, and-field 8 7 v) in
      rw e (small-kept _ (omega arith))),
  (
    (let e : bit_and v 0x7f0000 / 2 ^ 16 ≡ field 16 8 v % 2 ^ 7 = omega (arith, and-field 16 7 v) in
        rw e (small-kept _ (omega arith))),
    (
      (let e : bit_and v 0x7f000000 / 2 ^ 24 ≡ field 24 8 v % 2 ^ 7 =
            omega (arith, and-field 24 7 v) in
          rw e (small-kept _ (omega arith))),
      tt,
    ),
  ),
)

module _ (dev : Device) (start : ℕ) (mem : Remembers dev Reg.trigger_rule_min start) where
  get_run :
      (w : World) (pflag : ℤ)
      → w.lib.opened ≡ true
      → (a : ℕ) → a < 3
      → (tip_get_trigger_holdoff_min dev (pos (suc (suc a))) pflag w).0
        ≡ pos (field (8 * suc a) 8 (stored Reg.trigger_rule_min start w.log) % 2 ^ 7)
  unfolding tip_get_trigger_holdoff_min HasValue min_value
  get_run w pflag opened a lt =
      let v = stored Reg.trigger_rule_min start w.log in
      let guard : not (ltb 1 (suc (suc a))) || ltb 5 (suc (suc a)) ≡ false = ground arith in
      let value = min_value-field v a lt in
      rw (opened, guard, mem (lock ∷ w.log), value) (ground arith)

  module _ (w : World) (opened : w.lib.opened ≡ true) (value : ℕ) (hi : value ≤ 0x7f) where
    abbrev after : ℕ → World
    after b =
        let v = stored Reg.trigger_rule_min start w.log in
        record w {
          log =
              unlock
              ∷ write Reg.trigger_rule_min (put_field (8 * suc b) 8 (value + 0x80) v)
              ∷ read Reg.trigger_rule_min v
              ∷ lock
              ∷ w.log;
        }

    set_run :
        (b : ℕ)
        → b < 3
        → tip_set_trigger_holdoff_min dev (pos (suc (suc b))) value w ≡ (ok, after b)
    unfolding tip_set_trigger_holdoff_min HasWord min_word
    set_run b lt =
        let v = stored Reg.trigger_rule_min start w.log in
        let old = mem (lock ∷ w.log) in
        let v_fits : v < 2 ^ 32 = omega (arith, mem w.log) in
        let guard : not (ltb 1 (suc (suc b))) || ltb 5 (suc (suc b)) ≡ false = ground arith in
        let allowed : ltb 0x7f value ≡ false = ground arith in
        let word = min_word-put_field value v (omega arith) v_fits b lt in
        let whole : put_field (8 * suc b) 8 (value + 0x80) v % 2 ^ 32
            ≡ put_field (8 * suc b) 8 (value + 0x80) v =
          omega
            (arith, put_field-small (value + 0x80) v (omega arith) v_fits (suc b) (omega arith)) in
        rw (opened, guard, allowed, old, word, whole) refl

    -- On an open library whose card remembers the register, for rules from 2 to 4 and a value of at
    -- most 0x7f: tip_set_trigger_holdoff_min returns OK, sets the enable bit of the rule (the
    -- highest of its byte), and tip_get_trigger_holdoff_min of the same rule then returns the value,
    -- and of another rule what it returned before.
    pub tip_set_trigger_holdoff_min-get :
        (rule other : ℕ) (pflag : ℤ)
        → 2 ≤ rule
        → rule ≤ 4
        → 2 ≤ other
        → other ≤ 4
        → let r = tip_set_trigger_holdoff_min dev (pos rule) value w in
          (r.0 ≡ ok)
          × (field (8 * (rule - 1)) 8 (stored Reg.trigger_rule_min start r.1.log) ≡ value + 0x80)
          × ((tip_get_trigger_holdoff_min dev (pos other) pflag r.1).0 ≡ (
              if other == rule
              then pos value
              else (tip_get_trigger_holdoff_min dev (pos other) pflag w).0))
    tip_set_trigger_holdoff_min-get zero other pflag lo1 hi1 lo2 hi2 = absurd (omega arith)
    tip_set_trigger_holdoff_min-get (suc zero) other pflag lo1 hi1 lo2 hi2 = absurd (omega arith)
    tip_set_trigger_holdoff_min-get (suc (suc b)) zero pflag lo1 hi1 lo2 hi2 = absurd (omega arith)
    tip_set_trigger_holdoff_min-get (suc (suc b)) (suc zero) pflag lo1 hi1 lo2 hi2 =
        absurd (omega arith)
    tip_set_trigger_holdoff_min-get (suc (suc b)) (suc (suc a)) pflag lo1 hi1 lo2 hi2 =
        let v = stored Reg.trigger_rule_min start w.log in
        let fits : v < 2 ^ 32 = omega (arith, mem w.log) in
        let x = value + 0x80 in
        let new = get_run (after b) pflag opened a (omega arith) in
        let before = get_run w pflag opened a (omega arith) in
        let slot =
          field-put_field x v (omega arith) fits (suc a) (omega arith) (suc b) (omega arith) in
        let own =
          field-put_field x v (omega arith) fits (suc b) (omega arith) (suc b) (omega arith) in
        let same : suc b == suc b ≡ true = ground arith in
        let whole : put_field (8 * suc b) 8 x v % 2 ^ 32 ≡ put_field (8 * suc b) 8 x v =
          omega (arith, put_field-small x v (omega arith) fits (suc b) (omega arith)) in
        let place : suc (suc b) - 1 ≡ suc b = omega arith in
        rw (set_run b (omega arith), new, before, place, whole, slot, own, same)
          (refl, refl, ground arith)
