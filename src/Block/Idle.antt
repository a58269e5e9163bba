-- ===== src/Block/Idle.antt =====
-- The calls on the block level use the mutex as they should.
use tipcie.Prelude.{ℤ, arith}
use tipcie.Machine.{Device}
use tipcie.Machine.Lock.{KeepsIdle}
use tipcie.Block.{
  tip_get_next_block_level, tip_get_current_block_level, tip_broadcast_next_block_level, broadcast,
  tip_set_block_level, tip_set_instant_block_level_change, tip_get_instant_block_level_change,
}

module _ (dev : Device) where
  pub tip_get_next_block_level-KeepsIdle : KeepsIdle (tip_get_next_block_level dev)
  unfolding tip_get_next_block_level
  tip_get_next_block_level-KeepsIdle w h = ground arith

  pub tip_get_current_block_level-KeepsIdle : KeepsIdle (tip_get_current_block_level dev)
  unfolding tip_get_current_block_level
  tip_get_current_block_level-KeepsIdle w h = ground arith

  pub tip_broadcast_next_block_level-KeepsIdle :
      (a : ℤ) → KeepsIdle (tip_broadcast_next_block_level dev a)
  unfolding tip_broadcast_next_block_level broadcast tip_get_next_block_level
  tip_broadcast_next_block_level-KeepsIdle a w h = ground arith

  pub tip_set_block_level-KeepsIdle : (a : ℤ) → KeepsIdle (tip_set_block_level dev a)
  unfolding tip_set_block_level tip_broadcast_next_block_level broadcast tip_get_next_block_level
  tip_set_block_level-KeepsIdle a w h = ground arith

  pub tip_set_instant_block_level_change-KeepsIdle :
      (a : ℤ) → KeepsIdle (tip_set_instant_block_level_change dev a)
  unfolding tip_set_instant_block_level_change
  tip_set_instant_block_level_change-KeepsIdle a w h = ground arith

  pub tip_get_instant_block_level_change-KeepsIdle :
      KeepsIdle (tip_get_instant_block_level_change dev)
  unfolding tip_get_instant_block_level_change
  tip_get_instant_block_level_change-KeepsIdle w h = ground arith
