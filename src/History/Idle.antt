-- ===== src/History/Idle.antt =====
-- The calls on the history of sync codes use the mutex as they should.
use tipcie.Prelude.{ℕ, zero, suc, ◌+◌, Bool, not, truthy, ℤ, arith}
use tipcie.Machine.{Device}
use tipcie.Machine.Lock.{KeepsIdle, if-KeepsIdle}
use tipcie.History.{
  tip_set_user_sync_reset_receive, tip_get_last_sync_codes, tip_get_sync_history_buffer_status,
  tip_reset_sync_history, tip_user_sync_reset, tip_print_sync_history, history_turn, history_loop,
  history_fuel,
}

module _ (dev : Device) where
  pub tip_set_user_sync_reset_receive-KeepsIdle :
      (a : ℤ) → KeepsIdle (tip_set_user_sync_reset_receive dev a)
  unfolding tip_set_user_sync_reset_receive
  tip_set_user_sync_reset_receive-KeepsIdle a w h = ground arith

  pub tip_get_last_sync_codes-KeepsIdle : (a : ℤ) → KeepsIdle (tip_get_last_sync_codes dev a)
  unfolding tip_get_last_sync_codes
  tip_get_last_sync_codes-KeepsIdle a w h = ground arith

  pub tip_get_sync_history_buffer_status-KeepsIdle :
      (a : ℤ) → KeepsIdle (tip_get_sync_history_buffer_status dev a)
  unfolding tip_get_sync_history_buffer_status
  tip_get_sync_history_buffer_status-KeepsIdle a w h = ground arith

  pub tip_reset_sync_history-KeepsIdle : KeepsIdle tip_reset_sync_history
  unfolding tip_reset_sync_history
  tip_reset_sync_history-KeepsIdle w h = ground arith

  pub tip_user_sync_reset-KeepsIdle : (a : ℤ) → KeepsIdle (tip_user_sync_reset a)
  unfolding tip_user_sync_reset
  tip_user_sync_reset-KeepsIdle a w h = ground arith

  history_turn-KeepsIdle : (master : Bool) → KeepsIdle (history_turn dev master)
  unfolding history_turn
  history_turn-KeepsIdle master w h = ground arith

  history_loop-KeepsIdle :
      (fuel : ℕ) (master : Bool) (count : ℕ) → KeepsIdle (history_loop dev fuel master count)
  unfolding history_loop
  history_loop-KeepsIdle zero master count w h = h
  history_loop-KeepsIdle (suc fuel) master count w h =
      let turned = history_turn-KeepsIdle master w h in
      let rest =
        history_loop-KeepsIdle fuel master (count + 1) (history_turn dev master w).1 turned in
      ground arith

  pub tip_print_sync_history-KeepsIdle : KeepsIdle (tip_print_sync_history dev)
  unfolding tip_print_sync_history
  tip_print_sync_history-KeepsIdle w h =
      if-KeepsIdle (not w.lib.opened) _ _ (λ v k. k)
        (history_loop-KeepsIdle history_fuel (truthy w.lib.master) 0) w h
