-- ===== src/Buffer/Idle.antt =====
-- The calls on the buffer level and the blocks that wait use the mutex as they should.
use tipcie.Prelude.{ℕ, ℤ, arith}
use tipcie.Machine.{Device}
use tipcie.Block.{broadcast}
use tipcie.Machine.Lock.{KeepsIdle}
use tipcie.Buffer.{
  tip_set_block_buffer_level, tip_get_broadcast_block_buffer_level, tip_busy_on_buffer_level,
  tip_use_broadcast_buffer_level, tip_set_block_limit, tip_get_block_limit,
  tip_get_block_limit_status, tip_bready, tip_get_sync_event_flag, tip_get_sync_event_received,
  tip_get_readout_events,
}

module _ (dev : Device) where
  pub tip_set_block_buffer_level-KeepsIdle : (a : ℕ) → KeepsIdle (tip_set_block_buffer_level dev a)
  unfolding tip_set_block_buffer_level broadcast
  tip_set_block_buffer_level-KeepsIdle a w h = ground arith

  pub tip_get_broadcast_block_buffer_level-KeepsIdle :
      KeepsIdle (tip_get_broadcast_block_buffer_level dev)
  unfolding tip_get_broadcast_block_buffer_level
  tip_get_broadcast_block_buffer_level-KeepsIdle w h = ground arith

  pub tip_busy_on_buffer_level-KeepsIdle : (a : ℤ) → KeepsIdle (tip_busy_on_buffer_level dev a)
  unfolding tip_busy_on_buffer_level
  tip_busy_on_buffer_level-KeepsIdle a w h = ground arith

  pub tip_use_broadcast_buffer_level-KeepsIdle :
      (a : ℤ) → KeepsIdle (tip_use_broadcast_buffer_level dev a)
  unfolding tip_use_broadcast_buffer_level
  tip_use_broadcast_buffer_level-KeepsIdle a w h = ground arith

  pub tip_set_block_limit-KeepsIdle : (a : ℕ) → KeepsIdle (tip_set_block_limit dev a)
  unfolding tip_set_block_limit
  tip_set_block_limit-KeepsIdle a w h = ground arith

  pub tip_get_block_limit-KeepsIdle : KeepsIdle (tip_get_block_limit dev)
  unfolding tip_get_block_limit
  tip_get_block_limit-KeepsIdle w h = ground arith

  pub tip_get_block_limit_status-KeepsIdle : KeepsIdle (tip_get_block_limit_status dev)
  unfolding tip_get_block_limit_status
  tip_get_block_limit_status-KeepsIdle w h = ground arith

  pub tip_bready-KeepsIdle : KeepsIdle (tip_bready dev)
  unfolding tip_bready
  tip_bready-KeepsIdle w h = ground arith

  pub tip_get_sync_event_flag-KeepsIdle : KeepsIdle tip_get_sync_event_flag
  unfolding tip_get_sync_event_flag
  tip_get_sync_event_flag-KeepsIdle w h = ground arith

  pub tip_get_sync_event_received-KeepsIdle : KeepsIdle tip_get_sync_event_received
  unfolding tip_get_sync_event_received
  tip_get_sync_event_received-KeepsIdle w h = ground arith

  pub tip_get_readout_events-KeepsIdle : KeepsIdle tip_get_readout_events
  unfolding tip_get_readout_events
  tip_get_readout_events-KeepsIdle w h = ground arith
