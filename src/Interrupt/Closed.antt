-- ===== src/Interrupt/Closed.antt =====
-- While the library is not open, the calls on the polling do not touch the card.
use tipcie.Prelude.{
  zero, suc, ◌∷◌, above, true, Bool-cases, inl, inr, ℕ, ℤ, Bool, false, ◌≡◌, refl, arith,
}
use tipcie.Machine.{Device, World, sleep}
use tipcie.Buffer.Closed.{tip_bready_shut}
use tipcie.Machine.Touch.{touches}
use tipcie.Interrupt.{
  Routines, tip_int_ack, poll_turn, poll_turns, on_ready, tip_int_connect, tip_int_disconnect,
  tip_ack_connect, tip_do_library_polling_thread, tip_get_int_count, tip_get_ack_count,
  tip_int_enable, tip_int_disable,
}

module _ (dev : Device) where
  pub tip_int_connect_untouched :
      (a : ℕ) (b : Bool) (c : ℕ) (w : World)
      → w.lib.opened ≡ false
      → touches (tip_int_connect a b c w).1.log ≡ touches w.log
  unfolding tip_int_connect
  tip_int_connect_untouched a b c w closed = rw closed refl

  pub tip_int_disconnect_untouched :
      (w : World) → w.lib.opened ≡ false → touches (tip_int_disconnect w).1.log ≡ touches w.log
  unfolding tip_int_disconnect
  tip_int_disconnect_untouched w closed = rw closed refl

  pub tip_ack_connect_untouched :
      (a : Bool) (b : ℕ) (w : World)
      → w.lib.opened ≡ false
      → touches (tip_ack_connect a b w).1.log ≡ touches w.log
  unfolding tip_ack_connect
  tip_ack_connect_untouched a b w closed = ground arith

  pub tip_do_library_polling_thread_untouched :
      (a : ℤ) (w : World)
      → w.lib.opened ≡ false
      → touches (tip_do_library_polling_thread a w).1.log ≡ touches w.log
  unfolding tip_do_library_polling_thread
  tip_do_library_polling_thread_untouched a w closed = refl

  pub tip_get_int_count_untouched :
      (w : World) → w.lib.opened ≡ false → touches (tip_get_int_count w).1.log ≡ touches w.log
  unfolding tip_get_int_count
  tip_get_int_count_untouched w closed = refl

  pub tip_get_ack_count_untouched :
      (w : World) → w.lib.opened ≡ false → touches (tip_get_ack_count w).1.log ≡ touches w.log
  unfolding tip_get_ack_count
  tip_get_ack_count_untouched w closed = refl

  pub tip_int_enable_untouched :
      (a : ℤ) (w : World)
      → w.lib.opened ≡ false
      → touches (tip_int_enable a w).1.log ≡ touches w.log
  unfolding tip_int_enable
  tip_int_enable_untouched a w closed = rw closed refl

  pub tip_int_disable_untouched :
      (w : World) → w.lib.opened ≡ false → touches (tip_int_disable dev w).1.log ≡ touches w.log
  unfolding tip_int_disable
  tip_int_disable_untouched w closed = rw closed refl

  module _ (user : Routines) where
    pub tip_int_ack_untouched :
        (w : World) → w.lib.opened ≡ false → touches (tip_int_ack user w).1.log ≡ touches w.log
    unfolding tip_int_ack
    tip_int_ack_untouched w closed = rw closed refl

    poll_turn_closed :
        (w : World)
        → w.lib.opened ≡ false
        → poll_turn dev user w ≡ (true, record w { log = sleep 1 ∷ w.log })
    unfolding poll_turn on_ready
    poll_turn_closed w closed = elim (Bool-cases (above w.lib.need_ack 0)) [
      | inl waits ↦ rw waits refl
      | inr goes ↦ rw (goes, tip_bready_shut dev (record w { log = sleep 1 ∷ w.log }) closed) refl
    ]

    pub poll_turns_untouched :
        (n : ℕ) (w : World)
        → w.lib.opened ≡ false
        → touches (poll_turns dev user n w).1.log ≡ touches w.log
    unfolding poll_turns
    poll_turns_untouched zero w closed = refl
    poll_turns_untouched (suc n) w closed =
        rw (poll_turn_closed w closed)
          (poll_turns_untouched n (record w { log = sleep 1 ∷ w.log }) closed)
