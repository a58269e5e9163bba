-- ===== src/Table/Idle.antt =====
-- The calls on the trigger table use the mutex as they should.
use tipcie.Prelude.{ℕ, zero, suc, ◌+◌, ◌*◌, ℤ, pos, negsuc, Option, none, some, refl, arith}
use tipcie.Machine.{tiplock, tip_write}
use tipcie.Machine.Reg
use tipcie.Machine.Lock.{KeepsIdle, KeepsHeld}
use tipcie.Table.{
  tip_trigger_table_config, tip_get_trigger_table, tip_trigger_table_predefined_config,
  tip_define_event_type, tip_define_pulser_event_type, tip_load_trigger_table, load_table,
  load_words,
}

pub tip_trigger_table_config-KeepsIdle :
    (a : Option (ℕ → ℕ)) → KeepsIdle (tip_trigger_table_config a)
unfolding tip_trigger_table_config
tip_trigger_table_config-KeepsIdle none w h = h
tip_trigger_table_config-KeepsIdle (some f) w h = record { free = h.free; clean = h.clean }

pub tip_get_trigger_table-KeepsIdle : (a : Option (ℕ → ℕ)) → KeepsIdle (tip_get_trigger_table a)
unfolding tip_get_trigger_table
tip_get_trigger_table-KeepsIdle none w h = h
tip_get_trigger_table-KeepsIdle (some f) w h = h

pub tip_trigger_table_predefined_config-KeepsIdle :
    (a : ℤ) → KeepsIdle (tip_trigger_table_predefined_config a)
unfolding tip_trigger_table_predefined_config
tip_trigger_table_predefined_config-KeepsIdle (pos n) w h = record {
  free = h.free;
  clean = h.clean;
}
tip_trigger_table_predefined_config-KeepsIdle (negsuc n) w h = h

pub tip_define_event_type-KeepsIdle : (a b c : ℤ) → KeepsIdle (tip_define_event_type a b c)
unfolding tip_define_event_type
tip_define_event_type-KeepsIdle a b c w h = ground arith

pub tip_define_pulser_event_type-KeepsIdle :
    (a b : ℤ) → KeepsIdle (tip_define_pulser_event_type a b)
unfolding tip_define_pulser_event_type
tip_define_pulser_event_type-KeepsIdle a b w h = ground arith

-- The loop of writes neither takes nor gives back the mutex.
load_words-KeepsHeld : (left ipat : ℕ) (table : ℕ → ℕ) → KeepsHeld (load_words left ipat table)
unfolding load_words
load_words-KeepsHeld zero ipat table w h = h
load_words-KeepsHeld (suc left) ipat table w h =
    load_words-KeepsHeld left (suc ipat) table
      (tip_write (Reg.trig_table + 4 * ipat) (table ipat) w).1 (ground arith)

load_table-KeepsIdle : KeepsIdle load_table
unfolding load_table
load_table-KeepsIdle w h =
    let held = load_words-KeepsHeld 16 0 w.lib.trig_pattern_data (tiplock w).1 (ground arith) in
    record { free = refl; clean = ground arith }

pub tip_load_trigger_table-KeepsIdle : (a : ℤ) → KeepsIdle (tip_load_trigger_table a)
unfolding tip_load_trigger_table
tip_load_trigger_table-KeepsIdle a w h =
    grind (arith, load_table-KeepsIdle, tip_trigger_table_predefined_config-KeepsIdle)
