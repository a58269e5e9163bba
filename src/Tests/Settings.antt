-- ===== src/Tests/Settings.antt =====
-- The theorems on settings of the card, on registers that start with 0x1234_5678.
use tipcie.Prelude.{true, some, ok, pos, [], ◌∷◌, ◌≡◌, refl, arith}
use tipcie.Machine.{lock, unlock, write}
use tipcie.Machine.Reg
use tipcie.Machine.Registers.{stored, commands}
use tipcie.Block.{
  tip_get_current_block_level, tip_get_next_block_level, tip_broadcast_next_block_level,
}
use tipcie.Block.Levels.{block_level-fields, tip_broadcast_next_block_level-commands}
use tipcie.Buffer.{
  tip_bready, tip_get_sync_event_flag, tip_get_sync_event_received, tip_get_readout_events,
}
use tipcie.Buffer.Levels.{tip_bready-fields}
use tipcie.Crate.{tip_set_crate_id}
use tipcie.Crate.Registers.{tip_set_crate_id-put_field}
use tipcie.Pulser.{tip_set_input_prescale, tip_get_input_prescale, tip_soft_trig}
use tipcie.Pulser.Prescale.{tip_set_input_prescale-get}
use tipcie.Pulser.Soft.{tip_soft_trig-fields}
use tipcie.Inputs.{tip_set_event_format}
use tipcie.Inputs.Registers.{tip_set_event_format-put_field}
use tipcie.Fiber.{tip_enable_fiber, tip_disable_fiber, tip_set_trigger_lock, tip_get_trigger_lock}
use tipcie.Fiber.Registers.{tip_enable_fiber-disable, tip_set_trigger_lock-get}
use tipcie.Tests.{memory, memory-Remembers, ready}

block_level-fields_example :
    let kept = record (ready.lib) { block_level = 0x34; next_block_level = 0x12 } in
    ((tip_get_current_block_level memory ready).0 ≡ pos 0x34)
    × ((tip_get_next_block_level memory ready).0 ≡ pos 0x12)
    × ((tip_get_current_block_level memory ready).1.lib ≡ kept)
    × ((tip_get_next_block_level memory ready).1.lib ≡ kept)
block_level-fields_example = block_level-fields memory ready refl

tip_broadcast_next_block_level-commands_example :
    let r = tip_broadcast_next_block_level memory (pos 5) ready in
    (r.0 ≡ ok)
    × (commands 0x1234_5678 r.1.log ≡ (0x805, true) ∷ [])
    × (stored Reg.trigsrc 0x1234_5678 r.1.log ≡ 0x1234_5678)
tip_broadcast_next_block_level-commands_example =
    tip_broadcast_next_block_level-commands memory 0x1234_5678 (memory-Remembers Reg.trigsrc)
      (pos 5) ready refl

tip_bready-fields_example :
    let r = tip_bready memory ready in
    (r.0 ≡ 0x56)
    × ((tip_get_sync_event_received r.1).0 ≡ pos 0)
    × ((tip_get_readout_events r.1).0 ≡ pos 2)
    × ((tip_get_sync_event_flag r.1).0 ≡ pos 0)
tip_bready-fields_example = tip_bready-fields memory ready refl

tip_set_input_prescale-get_example :
    let r = tip_set_input_prescale memory (pos 2) (pos 9) ready in
    (r.0 ≡ ok)
    × (r.1.lib ≡ ready.lib)
    × (stored Reg.input_prescale 0x1234_5678 r.1.log ≡ 0x1234_5698)
    × ((tip_get_input_prescale memory (pos 2) r.1).0 ≡ some (pos 9))
tip_set_input_prescale-get_example =
    tip_set_input_prescale-get memory 0x1234_5678 (memory-Remembers Reg.input_prescale) 2 9 ready
      refl (omega arith) (omega arith) (omega arith)

tip_soft_trig-fields_example :
    tip_soft_trig (pos 2) 100 0x10 (pos 1) ready
    ≡ (ok, record ready { log = unlock ∷ write Reg.fixed_pulser2 0x8010_0064 ∷ lock ∷ [] })
tip_soft_trig-fields_example =
    tip_soft_trig-fields true 100 0x10 1 ready refl (omega arith) (omega arith) (omega arith)

tip_set_crate_id-put_field_example :
    let r = tip_set_crate_id memory 0x42 ready in
    (r.0 ≡ ok)
    × (r.1.lib ≡ ready.lib)
    × (stored Reg.board_id 0x1234_5678 r.1.log ≡ 0x1234_5642)
    × (ready.log ≡ ready.log)
tip_set_crate_id-put_field_example =
    tip_set_crate_id-put_field memory 0x1234_5678 (memory-Remembers Reg.board_id) 0x42 ready refl

tip_set_event_format-put_field_example :
    let r = tip_set_event_format memory (pos 2) ready in
    (r.0 ≡ ok) × (stored Reg.data_format 0x1234_5678 r.1.log ≡ 0x1234_567c)
tip_set_event_format-put_field_example =
    tip_set_event_format-put_field memory 0x1234_5678 (memory-Remembers Reg.data_format) 2 ready
      refl

tip_set_trigger_lock-get_example :
    let r = tip_set_trigger_lock memory (pos 0) ready in
    (r.0 ≡ ok)
    × (stored Reg.busy 0x1234_5678 r.1.log ≡ 0x1234_5638)
    × ((tip_get_trigger_lock memory r.1).0 ≡ pos 0)
tip_set_trigger_lock-get_example =
    tip_set_trigger_lock-get memory 0x1234_5678 (memory-Remembers Reg.busy) ready refl refl (pos 0)

tip_enable_fiber-disable_example :
    let on = tip_enable_fiber memory 1 ready in
    let off = tip_disable_fiber memory 1 ready in
    (on.0 ≡ ok)
    × (stored Reg.fiber 0x1234_5678 on.1.log ≡ 0x1234_5679)
    × (stored Reg.fiber 0x1234_5678 off.1.log ≡ 0x1234_5678)
tip_enable_fiber-disable_example =
    tip_enable_fiber-disable memory 0x1234_5678 (memory-Remembers Reg.fiber) 1 ready refl
      (omega arith) (omega arith)
