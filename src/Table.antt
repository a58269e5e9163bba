-- ===== src/Table.antt =====
-- TIpcieLib.c: the trigger table, which gives each pattern of the six TS inputs a hardware trigger
-- and an event type; four patterns make a word of it.
pub mod Idle
pub mod Closed
pub mod Patterns
pub mod Load
use tipcie.Prelude.{
  ℕ, zero, suc, ◌+◌, ◌*◌, ◌/◌, ◌%◌, ◌^◌, not, ◌||◌, bit_and, bit_or, Option, none, some, ℤ, pos,
  negsuc, ok, error, above, negative, equals, to_u32, ltb, ◌==◌, if◌then◌else◌, List, [], ◌∷◌,
  get_elem?,
}
use tipcie.Bits.Fields.{not32}
use tipcie.Machine.{M, pure, ◌>>=◌, ◌>>◌, globals, update, tiplock, tipunlock, tip_write}
use tipcie.Machine.Reg

-- The first `n` words are copied.
copy_table : ℕ → (ℕ → ℕ) → (ℕ → ℕ) → ℕ → ℕ
copy_table zero from to = to
copy_table (suc n) from to =
    let rest = copy_table n from to in λ i. if i == n then from n else rest i

-- A NULL pointer is `none`.
pub tip_trigger_table_config : Option (ℕ → ℕ) → M ℤ
unfolding copy_table
tip_trigger_table_config none = pure error
tip_trigger_table_config (some itable) = do
  update λ g. record g { trig_pattern_data = copy_table 16 itable g.trig_pattern_data }
  pure ok

pub tip_get_trigger_table : Option (ℕ → ℕ) → M (ℤ × Option (ℕ → ℕ))
unfolding copy_table
tip_get_trigger_table none = pure (error, none)
tip_get_trigger_table (some otable) = do
  g ← globals
  pure (ok, some (copy_table 16 g.trig_pattern_data otable))

-- The array of four tables.
abbrev trig_pattern_0 : List ℕ
trig_pattern_0 =
    0x4342_4100 ∷ 0x4746_4544 ∷ 0x4b4a_4948 ∷ 0x4f4e_4d4c ∷ 0x5352_5150 ∷ 0x5756_5554 ∷ 0x5b5a_5958
    ∷ 0x5f5e_5d5c ∷ 0x6362_61a0 ∷ 0x6766_6564 ∷ 0x6b6a_6968 ∷ 0x6f6e_6d6c ∷ 0x7372_7170
    ∷ 0x7776_7574 ∷ 0x7b7a_7978 ∷ 0x7f7e_7d7c ∷ []

abbrev trig_pattern_1 : List ℕ
trig_pattern_1 =
    0x4342_4100 ∷ 0x4746_4544 ∷ 0xcbca_c988 ∷ 0xcfce_cdcc ∷ 0xd3d2_d190 ∷ 0xd7d6_d5d4 ∷ 0xdbda_d998
    ∷ 0xdfde_dddc ∷ 0xe3e2_e1a0 ∷ 0xe7e6_e5e4 ∷ 0xebea_e9a8 ∷ 0xefee_edec ∷ 0xf3f2_f1b0
    ∷ 0xf7f6_f5f4 ∷ 0xfbfa_f9b8 ∷ 0xfffe_fdfc ∷ []

abbrev trig_pattern_2 : List ℕ
trig_pattern_2 =
    0x4342_4100 ∷ 0x4746_4544 ∷ 0x4b4a_4948 ∷ 0x4f4e_4d4c ∷ 0x5352_5150 ∷ 0x5756_5554 ∷ 0x5b5a_5958
    ∷ 0x5f5e_5d5c ∷ 0xe3e2_e1a0 ∷ 0xe7e6_e5e4 ∷ 0xebea_e9e8 ∷ 0xefee_edec ∷ 0xf3f2_f1f0
    ∷ 0xf7f6_f5f4 ∷ 0xfbfa_f9f8 ∷ 0xfffe_fdfc ∷ []

abbrev trig_pattern_3 : List ℕ
trig_pattern_3 =
    0x4342_4100 ∷ 0x4746_4544 ∷ 0x4b4a_4948 ∷ 0x4f4e_4d4c ∷ 0x5352_5150 ∷ 0x5756_5554 ∷ 0x5b5a_5958
    ∷ 0x5f5e_5d5c ∷ 0x6362_6160 ∷ 0x6766_6564 ∷ 0x6b6a_6968 ∷ 0x6f6e_6d6c ∷ 0x7372_7170
    ∷ 0x7776_7574 ∷ 0x7b7a_7978 ∷ 0x7f7e_7d7c ∷ []

-- The word at an index; the copy stays within the 16 words of a table.
abbrev word_at : List ℕ → ℕ → ℕ
word_at ws i = elim (get_elem? ws i) [ none ↦ 0 | some x ↦ x ]

abbrev trig_pattern : ℕ → List ℕ
trig_pattern mode =
    if mode == 0
    then trig_pattern_0
    else if mode == 1
    then trig_pattern_1
    else if mode == 2
    then trig_pattern_2
    else trig_pattern_3

-- A mode above 3 counts as 0. `none`: a negative one lies outside the array.
pub tip_trigger_table_predefined_config : ℤ → M (Option ℤ)
unfolding copy_table
tip_trigger_table_predefined_config (negsuc n) = pure none
tip_trigger_table_predefined_config (pos n) = do
  let mode = if ltb 3 n then 0 else n
  update λ g. record g {
    trig_pattern_data = copy_table 16 (word_at (trig_pattern mode)) g.trig_pattern_data;
  }
  pure (some ok)

-- The byte of a pattern replaced.
define_byte : ℕ → ℕ → ℕ → (ℕ → ℕ) → ℕ → ℕ
define_byte trig_mask hw_trig ev_type table =
    let element = trig_mask / 4 in
    let shift = trig_mask % 4 * 8 in
    let bits = bit_or (hw_trig * 2 ^ 6) ev_type in
    let old_pattern = bit_and (table element) (not32 (0xff * 2 ^ shift)) in
    λ i. if i == element then bit_or old_pattern (bits * 2 ^ shift) else table i

-- Only the upper bounds are checked. `none`: with a negative argument C leaves a shift undefined,
-- or the index lies outside the array.
pub tip_define_event_type : ℤ → ℤ → ℤ → M (Option ℤ)
unfolding define_byte
tip_define_event_type trig_mask hw_trig ev_type =
    if above trig_mask 0x3f || (above hw_trig 3 || above ev_type 0x3f)
    then pure (some error)
    else if negative trig_mask || (negative hw_trig || negative ev_type)
    then pure none
    else do
      update λ g. record g {
        trig_pattern_data =
            define_byte (to_u32 trig_mask) (to_u32 hw_trig) (to_u32 ev_type) g.trig_pattern_data;
      }
      pure (some ok)

pub tip_define_pulser_event_type : ℤ → ℤ → M ℤ
tip_define_pulser_event_type fixed_type random_type = do
  g ← globals
  if not g.opened
      then pure error
      else if negative fixed_type || above fixed_type 0xff
      then pure error
      else if negative random_type || above random_type 0xff
      then pure error
      else do
        tiplock
        tip_write Reg.pulser_ev_type
            (bit_or (to_u32 fixed_type * 2 ^ 16) (to_u32 random_type * 2 ^ 24))
        tipunlock
        pure ok

-- `left` words from index `ipat` on go to the card.
load_words : (left ipat : ℕ) → (ℕ → ℕ) → M (Unit {0})
load_words zero ipat table = pure tt
load_words (suc left) ipat table = do
  tip_write (Reg.trig_table + 4 * ipat) (table ipat)
  load_words left (suc ipat) table

-- Under the mutex.
load_table : M (Unit {0})
unfolding load_words
load_table = do tiplock; g ← globals; load_words 16 0 g.trig_pattern_data; tipunlock

-- Mode 4 loads the table as it stands; a mode above 4 counts as 0.
pub tip_load_trigger_table : ℤ → M (Option ℤ)
unfolding load_table
tip_load_trigger_table mode = do
  g ← globals
  if not g.opened
      then pure (some error)
      else if equals mode 4
      then load_table >> pure (some ok)
      else if negative mode
      then pure none
      else do
        tip_trigger_table_predefined_config (if above mode 4 then pos 0 else mode)
        load_table
        pure (some ok)
