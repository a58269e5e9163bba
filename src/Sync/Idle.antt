-- ===== src/Sync/Idle.antt =====
-- The calls on the sync source and sync reset use the mutex as they should.
use tipcie.Prelude.{ℕ, ℤ, arith}
use tipcie.Machine.{Device}
use tipcie.Block.Idle.{tip_broadcast_next_block_level-KeepsIdle}
use tipcie.Buffer.Idle.{tip_set_block_buffer_level-KeepsIdle}
use tipcie.Machine.Lock.{KeepsIdle}
use tipcie.Sync.{
  tip_set_sync_source, tip_set_sync_delay_width, tip_trig_link_reset, tip_set_sync_reset_type,
  tip_sync_reset_resync, tip_reset_event_counter, tip_sync_reset, tip_clock_reset,
  tip_get_event_counter,
}

module _ (dev : Device) where
  pub tip_set_sync_source-KeepsIdle : (a : ℕ) → KeepsIdle (tip_set_sync_source a)
  unfolding tip_set_sync_source
  tip_set_sync_source-KeepsIdle a w h = ground arith

  pub tip_set_sync_delay_width-KeepsIdle :
      (a : ℕ) (b : ℕ) (c : ℤ) → KeepsIdle (tip_set_sync_delay_width a b c)
  unfolding tip_set_sync_delay_width
  tip_set_sync_delay_width-KeepsIdle a b c w h = ground arith

  pub tip_trig_link_reset-KeepsIdle : KeepsIdle tip_trig_link_reset
  unfolding tip_trig_link_reset
  tip_trig_link_reset-KeepsIdle w h = ground arith

  pub tip_set_sync_reset_type-KeepsIdle : (a : ℤ) → KeepsIdle (tip_set_sync_reset_type a)
  unfolding tip_set_sync_reset_type
  tip_set_sync_reset_type-KeepsIdle a w h = ground arith

  pub tip_sync_reset_resync-KeepsIdle : KeepsIdle tip_sync_reset_resync
  unfolding tip_sync_reset_resync
  tip_sync_reset_resync-KeepsIdle w h = ground arith

  pub tip_reset_event_counter-KeepsIdle : KeepsIdle tip_reset_event_counter
  unfolding tip_reset_event_counter
  tip_reset_event_counter-KeepsIdle w h = ground arith

  pub tip_sync_reset-KeepsIdle : (a : ℤ) → KeepsIdle (tip_sync_reset dev a)
  unfolding tip_sync_reset
  tip_sync_reset-KeepsIdle a w h = grind (
    arith,
    tip_broadcast_next_block_level-KeepsIdle dev,
    tip_set_block_buffer_level-KeepsIdle dev,
  )

  pub tip_clock_reset-KeepsIdle : KeepsIdle (tip_clock_reset dev)
  unfolding tip_clock_reset
  tip_clock_reset-KeepsIdle w h = ground arith

  pub tip_get_event_counter-KeepsIdle : KeepsIdle (tip_get_event_counter dev)
  unfolding tip_get_event_counter
  tip_get_event_counter-KeepsIdle w h = ground arith
