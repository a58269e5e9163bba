-- ===== src/Tests/Rules.antt =====
-- The theorems on trigger rules, windows, delays and the trigger table.
use tipcie.Prelude.{ok, some, pos, ◌≡◌, ◌<◌, ◌*◌, ◌^◌, ◌+◌, refl, arith}
use tipcie.Bits.Fields.{field}
use tipcie.Machine.Reg
use tipcie.Machine.Registers.{stored}
use tipcie.Window.{
  tip_set_trigger_window, tip_set_trigger_inhibit_window, tip_set_trig21_delay,
  tip_set_trigger_latch_on_level,
}
use tipcie.Window.Registers.{settings, tip_set_trigger_window-settings}
use tipcie.Holdoff.{
  tip_set_trigger_holdoff, tip_get_trigger_holdoff, tip_set_trigger_holdoff_min,
  tip_get_trigger_holdoff_min,
}
use tipcie.Holdoff.Rules.{tip_set_trigger_holdoff-get}
use tipcie.Holdoff.Minima.{tip_set_trigger_holdoff_min-get}
use tipcie.Delays.{tip_set_tsinput_delay, tip_get_tsinput_delay}
use tipcie.Delays.Channels.{tip_set_tsinput_delay-get}
use tipcie.SyncEvents.{tip_set_sync_event_interval, tip_get_sync_event_interval}
use tipcie.SyncEvents.Interval.{tip_set_sync_event_interval-get}
use tipcie.Table.{
  tip_trigger_table_predefined_config, tip_define_event_type, tip_load_trigger_table,
}
use tipcie.Table.Patterns.{
  entry, tip_trigger_table_predefined_config-entry, tip_define_event_type-entry,
}
use tipcie.Table.Load.{tip_load_trigger_table-entry}
use tipcie.Machine.{World}
use tipcie.Tests.{memory, memory-Remembers, ready}

tip_set_trigger_window-settings_example :
    let old = settings memory ready in
    (settings memory (tip_set_trigger_window memory (pos 0x20) ready).1
      ≡ (pos 0x20, old.1, old.2, old.3))
    × (settings memory (tip_set_trigger_inhibit_window memory (pos 7) ready).1
        ≡ (old.0, pos 7, old.2, old.3))
    × (settings memory (tip_set_trig21_delay memory (pos 0x123) ready).1
        ≡ (old.0, old.1, pos 0x123, old.3))
    × (settings memory (tip_set_trigger_latch_on_level memory (pos 1) ready).1
        ≡ (old.0, old.1, old.2, pos 1))
tip_set_trigger_window-settings_example =
    tip_set_trigger_window-settings memory 0x1234_5678 (memory-Remembers Reg.trigger_window) ready
      refl 0x20 7 0x123 (pos 1) (omega arith) (omega arith) (omega arith) (omega arith)
      (omega arith) refl

tip_set_trigger_holdoff-get_example :
    let r = tip_set_trigger_holdoff memory (pos 3) 0x11 (pos 2) ready in
    (r.0 ≡ ok)
    × ((tip_get_trigger_holdoff memory (pos 3) r.1).0 ≡ pos 0x91)
    × (stored Reg.vme_control 0x1234_5678 r.1.log ≡ 0x9234_5678)
tip_set_trigger_holdoff-get_example =
    tip_set_trigger_holdoff-get memory 0x1234_5678 (memory-Remembers Reg.trigger_rule) 0x1234_5678
      (memory-Remembers Reg.vme_control) ready refl 0x11 (omega arith) (pos 2) 3 3 (omega arith)
      (omega arith) (omega arith) (omega arith)

tip_set_trigger_holdoff_min-get_example :
    let r = tip_set_trigger_holdoff_min memory (pos 4) 9 ready in
    (r.0 ≡ ok)
    × (field 24 8 (stored Reg.trigger_rule_min 0x1234_5678 r.1.log) ≡ 0x89)
    × ((tip_get_trigger_holdoff_min memory (pos 4) (pos 0) r.1).0 ≡ pos 9)
tip_set_trigger_holdoff_min-get_example =
    tip_set_trigger_holdoff_min-get memory 0x1234_5678 (memory-Remembers Reg.trigger_rule_min) ready
      refl 9 (omega arith) 4 4 (pos 0) (omega arith) (omega arith) (omega arith) (omega arith)

tip_set_tsinput_delay-get_example :
    let r = tip_set_tsinput_delay memory (pos 5) (pos 0x1f) ready in
    (r.0 ≡ ok)
    × ((tip_get_tsinput_delay memory (pos 6) r.1).0
        ≡ (tip_get_tsinput_delay memory (pos 6) ready).0)
tip_set_tsinput_delay-get_example =
    tip_set_tsinput_delay-get memory 0x1234_5678 (λ i. memory-Remembers (Reg.fp_delay + 4 * i))
      ready refl 0x1f (omega arith) 5 6 (omega arith) (omega arith) (omega arith) (omega arith)

tip_set_sync_event_interval-get_example :
    let r = tip_set_sync_event_interval (pos 0x0123_4567) ready in
    (r.0 ≡ ok) × ((tip_get_sync_event_interval memory r.1).0 ≡ pos 0xff_ffff)
tip_set_sync_event_interval-get_example =
    tip_set_sync_event_interval-get memory 0x1234_5678 (memory-Remembers Reg.sync_event_ctrl)
      0x0123_4567 ready refl refl

tip_trigger_table_predefined_config-entry_example :
    let r = tip_trigger_table_predefined_config (pos 1) ready in
    (r.0 ≡ some ok) × (entry r.1.lib.trig_pattern_data 9 ≡ 0xc9)
tip_trigger_table_predefined_config-entry_example =
    tip_trigger_table_predefined_config-entry 1 9 ready (omega arith)

-- A library whose table is empty.
abbrev blank : World
blank = record ready { lib = record (ready.lib) { trig_pattern_data = λ i. 0 } }

tip_define_event_type-entry_example :
    let r = tip_define_event_type (pos 0x11) (pos 2) (pos 5) blank in
    (r.0 ≡ some ok)
    × (entry r.1.lib.trig_pattern_data 0x11 ≡ 0x85)
    × (r.1.lib.trig_pattern_data 0x11 < 2 ^ 32)
tip_define_event_type-entry_example =
    tip_define_event_type-entry 0x11 2 5 blank (λ i. omega arith) (omega arith) (omega arith)
      (omega arith) 0x11

tip_load_trigger_table-entry_example :
    let r = tip_load_trigger_table (pos 3) ready in
    (r.0 ≡ some ok) × (field 24 8 (stored (Reg.trig_table + 4 * 1) 0 r.1.log) ≡ 0x47)
tip_load_trigger_table-entry_example = tip_load_trigger_table-entry 0 3 7 ready refl (omega arith)
