-- ===== src/SyncEvents/Idle.antt =====
-- The calls on the sync events use the mutex as they should.
use tipcie.Prelude.{ℕ, ℤ, arith}
use tipcie.Machine.{Device}
use tipcie.Machine.Lock.{KeepsIdle}
use tipcie.SyncEvents.{
  tip_set_sync_event_interval, tip_get_sync_event_interval, tip_force_sync_event,
  tip_sync_reset_request, tip_get_sync_reset_request, tip_enable_sync_reset_request,
  tip_sync_reset_request_status,
}

module _ (dev : Device) where
  pub tip_set_sync_event_interval-KeepsIdle : (a : ℤ) → KeepsIdle (tip_set_sync_event_interval a)
  unfolding tip_set_sync_event_interval
  tip_set_sync_event_interval-KeepsIdle a w h = ground arith

  pub tip_get_sync_event_interval-KeepsIdle : KeepsIdle (tip_get_sync_event_interval dev)
  unfolding tip_get_sync_event_interval
  tip_get_sync_event_interval-KeepsIdle w h = ground arith

  pub tip_force_sync_event-KeepsIdle : KeepsIdle tip_force_sync_event
  unfolding tip_force_sync_event
  tip_force_sync_event-KeepsIdle w h = ground arith

  pub tip_sync_reset_request-KeepsIdle : KeepsIdle tip_sync_reset_request
  unfolding tip_sync_reset_request
  tip_sync_reset_request-KeepsIdle w h = ground arith

  pub tip_get_sync_reset_request-KeepsIdle : KeepsIdle (tip_get_sync_reset_request dev)
  unfolding tip_get_sync_reset_request
  tip_get_sync_reset_request-KeepsIdle w h = ground arith

  pub tip_enable_sync_reset_request-KeepsIdle :
      (a : ℕ) (b : ℤ) → KeepsIdle (tip_enable_sync_reset_request dev a b)
  unfolding tip_enable_sync_reset_request
  tip_enable_sync_reset_request-KeepsIdle a b w h = ground arith

  pub tip_sync_reset_request_status-KeepsIdle :
      (a : ℤ) → KeepsIdle (tip_sync_reset_request_status dev a)
  unfolding tip_sync_reset_request_status
  tip_sync_reset_request_status-KeepsIdle a w h = ground arith
