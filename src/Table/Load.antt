-- ===== src/Table/Load.antt =====
-- The trigger table as it arrives on the card.
use tipcie.Prelude.{
  ℕ, zero, suc, ◌+◌, ◌*◌, ◌/◌, ◌%◌, ◌^◌, ◌<◌, true, false, ◌&&◌, some, ok, pos, ltb, leb,
  if◌then◌else◌, ◌==◌, each_case, ◌≡◌, refl, ap, sym, arith, Bool-cases, inl, inr, ◌∙◌,
}
use tipcie.Bits.Fields.{field}
use tipcie.Machine.{World, tiplock, tip_write}
use tipcie.Machine.Reg
use tipcie.Machine.Registers.{stored}
use tipcie.Table.{
  tip_load_trigger_table, tip_trigger_table_predefined_config, load_words, load_table,
}
use tipcie.Table.Patterns.{entry, trigger_of, tip_trigger_table_predefined_config-entry}

-- The register of a word of the table.
abbrev slot : ℕ → ℕ
slot i = Reg.trig_table + 4 * i

IsWhole : (x : ℕ) → ℕ → Type 0
IsWhole x b = field (8 * b) 8 (x % 2 ^ 32) ≡ field (8 * b) 8 x

field-mod : (x b : ℕ) → b < 4 → field (8 * b) 8 (x % 2 ^ 32) ≡ field (8 * b) 8 x
unfolding IsWhole
field-mod x = each_case (IsWhole x) 4 (omega arith, (omega arith, (omega arith, (omega arith, tt))))

module _ (start : ℕ) where
  load_words-stored :
      (left ipat : ℕ) (table : ℕ → ℕ) (i : ℕ) (w : World)
      → stored (slot i) start (load_words left ipat table w).1.log ≡ (
          if leb ipat i && ltb i (ipat + left)
          then table i % 2 ^ 32
          else stored (slot i) start w.log)
  unfolding load_words
  load_words-stored zero ipat table i w =
      let out : leb ipat i && ltb i (ipat + 0) ≡ false = ground arith in rw out refl
  load_words-stored (suc left) ipat table i w =
      let next = (tip_write (slot ipat) (table ipat) w).1 in
      let rest = load_words-stored left (suc ipat) table i next in
      elim (Bool-cases (i == ipat)) [
        | inl here ↦
            let e : i ≡ ipat = ground arith in
            let passed : leb (suc ipat) ipat && ltb ipat (suc ipat + left) ≡ false = ground arith in
            let inside : leb ipat ipat && ltb ipat (ipat + suc left) ≡ true = ground arith in
            let same : slot ipat == slot ipat ≡ true = ground arith in
            rest ∙ (rw (e, passed, inside, same) (omega arith))
        | inr apart ↦
            let t : (leb (suc ipat) i && ltb i (suc ipat + left))
                ≡ (leb ipat i && ltb i (ipat + suc left)) =
              ground arith in
            let off : slot i == slot ipat ≡ false = ground arith in rest ∙ (rw (t, off) refl)
      ]

  load_table-stored :
      (i : ℕ) (w : World)
      → i < 16
      → stored (slot i) start (load_table w).1.log ≡ w.lib.trig_pattern_data i % 2 ^ 32
  unfolding load_table
  load_table-stored i w h =
      let inside : leb 0 i && ltb i (0 + 16) ≡ true = ground arith in
      load_words-stored 16 0 w.lib.trig_pattern_data i (tiplock w).1 ∙ (rw inside refl)

  -- On an open library and for a mode that is not negative, tip_load_trigger_table returns OK, and
  -- the registers of the table then hold, in the byte of each of the 64 patterns, the trigger of the
  -- mode's description with the pattern itself as event type; mode 4 sends the table as the library
  -- had it, and a mode above 4 counts as 0.
  pub tip_load_trigger_table-entry :
      (mode pattern : ℕ) (w : World)
      → w.lib.opened ≡ true
      → pattern < 64
      → let r = tip_load_trigger_table (pos mode) w in
        (r.0 ≡ some ok)
        × (field (8 * (pattern % 4)) 8 (stored (Reg.trig_table + 4 * (pattern / 4)) start r.1.log)
            ≡ (if mode == 4
                then entry w.lib.trig_pattern_data pattern
                else 64 * trigger_of (if ltb 3 mode then 0 else mode) pattern + pattern))
  unfolding tip_load_trigger_table tip_trigger_table_predefined_config
  tip_load_trigger_table-entry mode pattern w opened h =
      let slot_byte = λ (v : World).
        ap (λ (x : ℕ). field (8 * (pattern % 4)) 8 x)
          (load_table-stored (pattern / 4) v (omega arith))
        ∙ field-mod (v.lib.trig_pattern_data (pattern / 4)) (pattern % 4) (omega arith) in
      elim (Bool-cases (mode == 4)) [
        | inl stands ↦ rw (opened, stands) (refl, slot_byte w)
        | inr given ↦
            let m : ℕ = if ltb 4 mode then 0 else mode in
            let e : (if ltb 3 m then 0 else m) ≡ (if ltb 3 mode then 0 else mode) = ground arith in
            let c : (if ltb 4 mode then pos 0 else pos mode) ≡ pos m = ground arith in
            let filled = tip_trigger_table_predefined_config-entry m pattern w h in
            let set = (tip_trigger_table_predefined_config (pos m) w).1 in
            rw (opened, given, c, sym e) (refl, slot_byte set ∙ filled.1)
      ]
