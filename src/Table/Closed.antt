-- ===== src/Table/Closed.antt =====
-- While the library is not open, the calls on the trigger table do not touch the card.
use tipcie.Prelude.{ℕ, ℤ, Option, false, none, some, pos, negsuc, ◌≡◌, refl, arith}
use tipcie.Machine.{Device, World}
use tipcie.Machine.Touch.{touches}
use tipcie.Table.{
  tip_trigger_table_config, tip_get_trigger_table, tip_trigger_table_predefined_config,
  tip_define_event_type, tip_define_pulser_event_type, tip_load_trigger_table,
}

module _ (dev : Device) where
  pub tip_trigger_table_config_untouched :
      (a : Option (ℕ → ℕ)) (w : World)
      → w.lib.opened ≡ false
      → touches (tip_trigger_table_config a w).1.log ≡ touches w.log
  unfolding tip_trigger_table_config
  tip_trigger_table_config_untouched a w closed =
      elim a as (λ x. touches (tip_trigger_table_config x w).1.log ≡ touches w.log) [
        | none ↦ refl
        | some f ↦ refl
      ]

  pub tip_get_trigger_table_untouched :
      (a : Option (ℕ → ℕ)) (w : World)
      → w.lib.opened ≡ false
      → touches (tip_get_trigger_table a w).1.log ≡ touches w.log
  unfolding tip_get_trigger_table
  tip_get_trigger_table_untouched a w closed =
      elim a as (λ x. touches (tip_get_trigger_table x w).1.log ≡ touches w.log) [
        | none ↦ refl
        | some f ↦ refl
      ]

  pub tip_trigger_table_predefined_config_untouched :
      (a : ℤ) (w : World)
      → w.lib.opened ≡ false
      → touches (tip_trigger_table_predefined_config a w).1.log ≡ touches w.log
  unfolding tip_trigger_table_predefined_config
  tip_trigger_table_predefined_config_untouched a w closed =
      elim a as (λ x. touches (tip_trigger_table_predefined_config x w).1.log ≡ touches w.log) [
        | pos n ↦ refl
        | negsuc n ↦ refl
      ]

  pub tip_define_event_type_untouched :
      (a : ℤ) (b : ℤ) (c : ℤ) (w : World)
      → w.lib.opened ≡ false
      → touches (tip_define_event_type a b c w).1.log ≡ touches w.log
  unfolding tip_define_event_type
  tip_define_event_type_untouched a b c w closed = ground arith

  pub tip_define_pulser_event_type_untouched :
      (a : ℤ) (b : ℤ) (w : World)
      → w.lib.opened ≡ false
      → touches (tip_define_pulser_event_type a b w).1.log ≡ touches w.log
  unfolding tip_define_pulser_event_type
  tip_define_pulser_event_type_untouched a b w closed = rw closed refl

  pub tip_load_trigger_table_untouched :
      (a : ℤ) (w : World)
      → w.lib.opened ≡ false
      → touches (tip_load_trigger_table a w).1.log ≡ touches w.log
  unfolding tip_load_trigger_table
  tip_load_trigger_table_untouched a w closed = rw closed refl
