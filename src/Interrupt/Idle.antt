-- ===== src/Interrupt/Idle.antt =====
-- The calls on the polling use the mutex as they should.
use tipcie.Prelude.{ℕ, ℤ, Bool, arith}
use tipcie.Machine.{Device}
use tipcie.Trigger.{tip_enable_trigger_source}
use tipcie.Trigger.Idle.{tip_disable_trigger_source-KeepsIdle}
use tipcie.Machine.Lock.{KeepsIdle}
use tipcie.Interrupt.{
  tip_int_connect, tip_int_disconnect, tip_ack_connect, tip_do_library_polling_thread,
  tip_get_int_count, tip_get_ack_count, tip_int_enable, tip_int_disable,
}

module _ (dev : Device) where
  pub tip_int_connect-KeepsIdle : (a : ℕ) (b : Bool) (c : ℕ) → KeepsIdle (tip_int_connect a b c)
  unfolding tip_int_connect
  tip_int_connect-KeepsIdle a b c w h = ground arith

  pub tip_int_disconnect-KeepsIdle : KeepsIdle tip_int_disconnect
  unfolding tip_int_disconnect
  tip_int_disconnect-KeepsIdle w h = ground arith

  pub tip_ack_connect-KeepsIdle : (a : Bool) (b : ℕ) → KeepsIdle (tip_ack_connect a b)
  unfolding tip_ack_connect
  tip_ack_connect-KeepsIdle a b w h = ground arith

  pub tip_do_library_polling_thread-KeepsIdle :
      (a : ℤ) → KeepsIdle (tip_do_library_polling_thread a)
  unfolding tip_do_library_polling_thread
  tip_do_library_polling_thread-KeepsIdle a w h = ground arith

  pub tip_get_int_count-KeepsIdle : KeepsIdle tip_get_int_count
  unfolding tip_get_int_count
  tip_get_int_count-KeepsIdle w h = ground arith

  pub tip_get_ack_count-KeepsIdle : KeepsIdle tip_get_ack_count
  unfolding tip_get_ack_count
  tip_get_ack_count-KeepsIdle w h = ground arith

  pub tip_int_enable-KeepsIdle : (a : ℤ) → KeepsIdle (tip_int_enable a)
  unfolding tip_int_enable tip_enable_trigger_source
  tip_int_enable-KeepsIdle a w h = ground arith

  pub tip_int_disable-KeepsIdle : KeepsIdle (tip_int_disable dev)
  unfolding tip_int_disable
  tip_int_disable-KeepsIdle w h = grind (arith, tip_disable_trigger_source-KeepsIdle dev)
