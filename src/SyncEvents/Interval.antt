-- ===== src/SyncEvents/Interval.antt =====
-- The interval of sync events set and read back.
use tipcie.Prelude.{
  ℕ, ◌%◌, ◌^◌, ◌≤◌, bit_and, true, ok, pos, to_u32, truthy, ltb, if◌then◌else◌, ◌∷◌, ◌≡◌, refl,
  arith,
}
use tipcie.Bits.Fields.{and-field}
use tipcie.Machine.{Device, World, write, lock, unlock}
use tipcie.Machine.Reg
use tipcie.Machine.Registers.{Remembers}
use tipcie.SyncEvents.{tip_set_sync_event_interval, tip_get_sync_event_interval}

module _ (dev : Device) (start : ℕ) (mem : Remembers dev Reg.sync_event_ctrl start) where
  abbrev clamped : ℕ → ℕ
  clamped interval = if ltb 0xff_ffff interval then 0xff_ffff else interval

  abbrev after : ℕ → World → World
  after x w = record w { log = unlock ∷ write Reg.sync_event_ctrl x ∷ lock ∷ w.log }

  set_run :
      (interval : ℕ) (w : World)
      → w.lib.opened ≡ true
      → truthy w.lib.master ≡ true
      → tip_set_sync_event_interval (pos interval) w ≡ (ok, after (clamped interval) w)
  unfolding tip_set_sync_event_interval
  set_run interval w opened master =
      let e : to_u32 (if ltb 0xff_ffff interval then pos 0xff_ffff else pos interval) % 2 ^ 32
          ≡ clamped interval =
        ground arith in
      rw (opened, master, e) refl

  get_run :
      (x : ℕ) (w : World)
      → w.lib.opened ≡ true
      → truthy w.lib.master ≡ true
      → x ≤ 0xff_ffff
      → (tip_get_sync_event_interval dev (after x w)).0 ≡ pos x
  unfolding tip_get_sync_event_interval
  get_run x w opened master fits =
      let old = mem (lock ∷ (after x w).log) in
      let small : x % 2 ^ 32 ≡ x = omega arith in
      let back : bit_and x 0xff_ffff ≡ x = omega (arith, and-field 0 24 x) in
      rw (opened, master, old, small, back) (ground arith)

  -- On an open library of a master whose card remembers the register, tip_set_sync_event_interval
  -- with an interval that is not negative returns OK, and tip_get_sync_event_interval then returns
  -- the interval, or 0xffffff where it is larger.
  pub tip_set_sync_event_interval-get :
      (interval : ℕ) (w : World)
      → w.lib.opened ≡ true
      → truthy w.lib.master ≡ true
      → let r = tip_set_sync_event_interval (pos interval) w in
        (r.0 ≡ ok)
        × ((tip_get_sync_event_interval dev r.1).0
            ≡ pos (if ltb 0xff_ffff interval then 0xff_ffff else interval))
  tip_set_sync_event_interval-get interval w opened master =
      rw (set_run interval w opened master)
        (refl, get_run (clamped interval) w opened master (ground arith))
