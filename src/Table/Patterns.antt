-- ===== src/Table/Patterns.antt =====
-- The trigger table as a map from the patterns of the TS inputs to trigger and event type.
use tipcie.Prelude.{
  ℕ, zero, suc, ◌+◌, ◌*◌, ◌/◌, ◌%◌, ◌^◌, ◌<◌, bit_or, true, false, ◌||◌, some, ok, pos, ltb,
  if◌then◌else◌, ◌==◌, each_case, ◌≡◌, refl, ap, arith, Bool-cases, inl, inr, ◌∙◌,
}
use tipcie.Bits.Fields.{mask, field, or-low}
use tipcie.Bits.Insert.{put_field, insert-put_field}
use tipcie.Machine.{World}
use tipcie.Prelude.{all_below, all_below-lt, ==_iff}
use tipcie.Bits.Slots.{put_field-small, field-put_field}
use tipcie.Table.{
  tip_trigger_table_predefined_config, tip_define_event_type, define_byte, copy_table, trig_pattern,
  word_at,
}

-- The byte of a pattern: the hardware trigger in its two highest bits, the event type below.
abbrev pub entry : (ℕ → ℕ) → ℕ → ℕ
entry table pattern = field (8 * (pattern % 4)) 8 (table (pattern / 4))

-- Words of 32 bits.
abbrev pub AreWords : (ℕ → ℕ) → Type 0
AreWords table = (i : ℕ) → table i < 2 ^ 32

-- What the four modes stand for. The inputs of a pattern are its bits: none is no trigger. Mode 0
-- makes each pattern its own event type by trigger 1, but input 6 alone by trigger 2. Mode 1
-- takes inputs 1 to 3 for trigger 1 and inputs 4 to 6 for trigger 2, mode 2 inputs 1 to 5 and
-- input 6, mode 3 all inputs for trigger 1.
abbrev pub trigger_of : (mode pattern : ℕ) → ℕ
trigger_of mode pattern =
    if pattern == 0
    then 0
    else if mode == 1
    then (if pattern % 8 == 0 then 0 else 1) + (if pattern / 8 == 0 then 0 else 2)
    else if mode == 2
    then (if pattern % 32 == 0 then 0 else 1) + (if pattern / 32 == 0 then 0 else 2)
    else if mode == 3
    then 1
    else if pattern == 32
    then 2
    else 1

copy_table-below : (n : ℕ) (from to : ℕ → ℕ) (i : ℕ) → i < n → copy_table n from to i ≡ from i
unfolding copy_table
copy_table-below zero from to i h = absurd (omega arith)
copy_table-below (suc n) from to i h = elim (Bool-cases (i == n)) [
  | inl top ↦ let e : i ≡ n = ground arith in rw (top, e) refl
  | inr lower ↦ rw lower (copy_table-below n from to i (ground arith))
]

IsDescribed : ℕ → Type 0
IsDescribed mode =
    all_below (λ p. entry (word_at (trig_pattern mode)) p == 64 * trigger_of mode p + p) 64 ≡ true

predefined-entry :
    (mode : ℕ)
    → mode < 4
    → (p : ℕ) → p < 64
    → entry (word_at (trig_pattern mode)) p ≡ 64 * trigger_of mode p + p
unfolding IsDescribed
predefined-entry mode h p lt =
    let all = each_case IsDescribed 4 (refl, (refl, (refl, (refl, tt)))) mode h in
    (==_iff _ _).0 (
      all_below-lt (λ x. entry (word_at (trig_pattern mode)) x == 64 * trigger_of mode x + x) 64 all
        p lt)

-- With a mode that is not negative, tip_trigger_table_predefined_config returns OK and gives each of
-- the 64 patterns of the inputs the trigger of the mode's description, and the pattern itself as its
-- event type; a mode above 3 counts as 0.
pub tip_trigger_table_predefined_config-entry :
    (mode pattern : ℕ) (w : World)
    → pattern < 64
    → let r = tip_trigger_table_predefined_config (pos mode) w in
      (r.0 ≡ some ok)
      × (entry r.1.lib.trig_pattern_data pattern
          ≡ 64 * trigger_of (if ltb 3 mode then 0 else mode) pattern + pattern)
unfolding tip_trigger_table_predefined_config
tip_trigger_table_predefined_config-entry mode pattern w h =
    let m : ℕ = if ltb 3 mode then 0 else mode in
    let copied =
      copy_table-below 16 (word_at (trig_pattern m)) w.lib.trig_pattern_data (pattern / 4)
        (omega arith) in
    (
      refl,
      ap (λ (x : ℕ). field (8 * (pattern % 4)) 8 x) copied
          ∙ predefined-entry m (ground arith) pattern h,
    )

module _ (pattern trigger ev_type : ℕ) (ht : trigger < 4) (he : ev_type < 64) (table : ℕ → ℕ)
    (words : AreWords table) where
  abbrev byte : ℕ
  byte = 64 * trigger + ev_type

  abbrev word : ℕ
  word = put_field (8 * (pattern % 4)) 8 byte (table (pattern / 4))

  define_byte-put_field :
      (i : ℕ)
      → define_byte pattern trigger ev_type table i ≡ (if i == pattern / 4 then word else table i)
  unfolding define_byte
  define_byte-put_field i =
      let b = pattern % 4 in
      let v = table (pattern / 4) in
      let shift : b * 8 ≡ 8 * b = omega arith in
      let bits : bit_or (trigger * 2 ^ 6) ev_type ≡ byte =
        omega (arith, or-low 6 trigger ev_type he) in
      let hm =
        each_case (λ b. mask (8 * b) 8 < 2 ^ 32) 4
          (omega arith, (omega arith, (omega arith, (omega arith, tt)))) b (omega arith) in
      let put = insert-put_field (8 * b) 8 v (words (pattern / 4)) hm byte (omega arith) in
      rw (shift, bits, put) refl

  define_byte-entry :
      (other : ℕ)
      → (entry (define_byte pattern trigger ev_type table) other
          ≡ (if other == pattern then byte else entry table other))
        × (define_byte pattern trigger ev_type table other < 2 ^ 32)
  define_byte-entry other =
      let fits = words (pattern / 4) in
      let slot =
        field-put_field byte (table (pattern / 4)) (omega arith) fits (other % 4) (omega arith)
          (pattern % 4) (omega arith) in
      let small =
        put_field-small byte (table (pattern / 4)) (omega arith) fits (pattern % 4) (omega arith) in
      (
        elim (Bool-cases (other / 4 == pattern / 4)) [
          | inl same ↦
              let e : other / 4 ≡ pattern / 4 = ground arith in
              let t : (other % 4 == pattern % 4) ≡ (other == pattern) = ground arith in
              rw (define_byte-put_field (other / 4), same, slot, t, e) refl
          | inr apart ↦
              let t : (other == pattern) ≡ false = ground arith in
              rw (define_byte-put_field (other / 4), apart, t) refl
        ],
        rw (define_byte-put_field other) (ground (arith, words other)),
      )

-- For a pattern below 64, a trigger below 4 and an event type below 64, and a table of words of 32
-- bits: tip_define_event_type returns OK, gives the pattern this trigger and this event type, and
-- keeps what it had for every other pattern; the words of the table still have 32 bits.
pub tip_define_event_type-entry :
    (pattern trigger ev_type : ℕ) (w : World)
    → AreWords w.lib.trig_pattern_data
    → pattern < 64
    → trigger < 4
    → ev_type < 64
    → (other : ℕ)
    → let r = tip_define_event_type (pos pattern) (pos trigger) (pos ev_type) w in
      let table = w.lib.trig_pattern_data in
      (r.0 ≡ some ok)
      × (entry r.1.lib.trig_pattern_data other
          ≡ (if other == pattern then 64 * trigger + ev_type else entry table other))
      × (r.1.lib.trig_pattern_data other < 2 ^ 32)
unfolding tip_define_event_type
tip_define_event_type-entry pattern trigger ev_type w words hp ht he other =
    let guard : (ltb 0x3f pattern || (ltb 3 trigger || ltb 0x3f ev_type)) ≡ false = ground arith in
    let e1 : pattern % 2 ^ 32 ≡ pattern = omega arith in
    let e2 : trigger % 2 ^ 32 ≡ trigger = omega arith in
    let e3 : ev_type % 2 ^ 32 ≡ ev_type = omega arith in
    let new = define_byte-entry pattern trigger ev_type ht he w.lib.trig_pattern_data words other in
    rw (guard, e1, e2, e3) (refl, new.0, new.1)
