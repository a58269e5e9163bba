-- ===== src/Interrupt/Polling.antt =====
-- The polling loop and the acknowledgement of blocks use the mutex as they should, as long as the
-- user's routines do.
use tipcie.Prelude.{
  ℕ, zero, suc, true, not, ◌==◌, ◌&&◌, above, Bool-cases, inl, inr, refl, ◌∷◌, arith,
}
use tipcie.Machine.{Device, World, ◌>>=◌, pure, sleep, lock, tiplock, tipunlock, ◌>>◌}
use tipcie.Machine.Lock.{KeepsIdle, KeepsHeld, if-KeepsIdle}
use tipcie.Buffer.{tip_bready}
use tipcie.Buffer.Idle.{tip_bready-KeepsIdle}
use tipcie.Interrupt.{Routines, tip_int_ack, serve, on_ready, poll_turn, poll_turns}

-- The interrupt routine may call the library; the acknowledge routine is called with the mutex
-- held, and may not lock it.
pub record AreSafe (user : Routines) : Type 0 where
  pub int_routine_idle : (arg : ℕ) → KeepsIdle (user.int_routine arg)
  pub ack_routine_held : (arg : ℕ) → KeepsHeld (user.ack_routine arg)

module _ (dev : Device) (user : Routines) (safe : AreSafe user) where
  ack_user-KeepsIdle : (arg : ℕ) → KeepsIdle (tiplock >> user.ack_routine arg >> tipunlock)
  ack_user-KeepsIdle arg w h =
      let inside : World = record w { log = lock ∷ w.log } in
      let held = safe.ack_routine_held arg inside (record { taken = refl; clean = ground arith }) in
      record { free = refl; clean = ground arith }

  pub tip_int_ack-KeepsIdle : KeepsIdle (tip_int_ack user)
  unfolding tip_int_ack
  tip_int_ack-KeepsIdle w h =
      if-KeepsIdle (not w.lib.opened) _ _ (λ w h. h)
        (if-KeepsIdle w.lib.ack_routine _ _ (ack_user-KeepsIdle w.lib.ack_arg)
          (λ w h. ground arith))
        w h

  serve-KeepsIdle : (tidata : ℕ) → KeepsIdle (serve dev user tidata)
  unfolding serve
  serve-KeepsIdle tidata w h =
      let served =
        if-KeepsIdle w.lib.int_routine _ _ (safe.int_routine_idle w.lib.int_arg) (λ w h. h) _
          (record { free = h.free; clean = h.clean }) in
      if-KeepsIdle _ _ _ tip_int_ack-KeepsIdle (λ w h. h) _ served

  on_ready-KeepsIdle : (tidata : ℕ) → KeepsIdle (on_ready dev user tidata)
  unfolding on_ready
  on_ready-KeepsIdle tidata w h = elim (Bool-cases (tidata == 0xffff_ffff)) [
    | inl gone ↦ rw gone h
    | inr ready ↦ rw ready (
        if-KeepsIdle (not (tidata == 0) && w.lib.int_running) (serve dev user tidata) (pure tt)
          (serve-KeepsIdle tidata) (λ w h. h) w h)
  ]

  poll_turn-KeepsIdle : KeepsIdle (poll_turn dev user)
  unfolding poll_turn
  poll_turn-KeepsIdle w h =
      if-KeepsIdle (above w.lib.need_ack 0) (pure true) (tip_bready dev >>= on_ready dev user)
        (λ w h. h)
        (λ w h.
          on_ready-KeepsIdle (tip_bready dev w).0 (tip_bready dev w).1
            (tip_bready-KeepsIdle dev w h))
        (record w { log = sleep 1 ∷ w.log }) (record { free = h.free; clean = h.clean })

  pub poll_turns-KeepsIdle : (n : ℕ) → KeepsIdle (poll_turns dev user n)
  unfolding poll_turns
  poll_turns-KeepsIdle zero w h = h
  poll_turns-KeepsIdle (suc n) w h =
      if-KeepsIdle _ _ _ (poll_turns-KeepsIdle n) (λ w h. h) _ (poll_turn-KeepsIdle w h)
