-- ===== src/Buffer/Levels.antt =====
-- The buffer level, and what tipBReady takes from the register of the blocks that are ready.
use tipcie.Prelude.{
  ℕ, ℤ, true, not, ◌&&◌, ◌/◌, ◌%◌, ◌^◌, ◌∷◌, ◌≡◌, refl, arith, bit_and, ◌==◌, if◌then◌else◌,
}
use tipcie.Bits.Fields.{field, and-field}
use tipcie.Machine.{Device, World, read, lock, unlock}
use tipcie.Machine.Reg
use tipcie.Buffer.{
  tip_bready, tip_get_sync_event_flag, tip_get_sync_event_received, tip_get_readout_events,
}

module _ (dev : Device) where
  -- The whole effect of tip_bready, in bits of the register.
  abbrev pub noted : World → ℕ → World
  noted w v =
      let ready = field 8 8 v in
      record {
        lib = record (w.lib) {
          sync_event_received = field 31 1 v;
          n_readout_events = field 24 3 v;
          sync_event_flag = if ready == 1 && (field 31 1 v == 1 && field 16 8 v == 0) then 1 else 0;
        };
        log = unlock ∷ read Reg.block_buffer v ∷ lock ∷ w.log;
      }

  pub tip_bready_run :
      (w : World)
      → w.lib.opened ≡ true
      → let v = dev.answer (lock ∷ w.log) Reg.block_buffer % 2 ^ 32 in
        tip_bready dev w ≡ (if v == 0xffff_ffff then 0xffff_ffff else field 8 8 v, noted w v)
  unfolding tip_bready
  tip_bready_run w opened =
      let v = dev.answer (lock ∷ w.log) Reg.block_buffer % 2 ^ 32 in
      let ready : bit_and v 0xff00 / 2 ^ 8 ≡ field 8 8 v = omega (arith, and-field 8 8 v) in
      let needed : (bit_and v 0xff_0000 / 2 ^ 16 == 0) ≡ (field 16 8 v == 0) =
        ground (arith, and-field 16 8 v) in
      let events : bit_and v 0x700_0000 / 2 ^ 24 ≡ field 24 3 v = omega (arith, and-field 24 3 v) in
      let sync : bit_and v 0x8000_0000 / 2 ^ 31 ≡ field 31 1 v = omega (arith, and-field 31 1 v) in
      let bit : not (field 31 1 v == 0) ≡ (field 31 1 v == 1) = ground arith in
      rw (opened, ready, needed, events, sync, bit) refl

  -- On an open library, tip_bready returns bits 8 to 15 of the block buffer register, the number of
  -- blocks that are ready, unless the register reads as all ones, which is ERROR. It notes the sync
  -- event bit (31), the number of events that are ready (bits 24 to 26), and raises the sync event's
  -- flag exactly if one block is ready, the bit is set, and no trigger (bits 16 to 23) is missing
  -- from the block; the three getters return what was noted.
  pub tip_bready-fields :
      (w : World)
      → w.lib.opened ≡ true
      → let v = dev.answer (lock ∷ w.log) Reg.block_buffer % 2 ^ 32 in
        let r = tip_bready dev w in
        let ready = field 8 8 v in
        let flagged = ready == 1 && (field 31 1 v == 1 && field 16 8 v == 0) in
        (r.0 ≡ (if v == 0xffff_ffff then 0xffff_ffff else ready))
        × ((tip_get_sync_event_received r.1).0 ≡ ℤ.pos (field 31 1 v))
        × ((tip_get_readout_events r.1).0 ≡ ℤ.pos (field 24 3 v))
        × ((tip_get_sync_event_flag r.1).0 ≡ ℤ.pos (if flagged then 1 else 0))
  unfolding tip_get_sync_event_flag tip_get_sync_event_received tip_get_readout_events
  tip_bready-fields w opened = rw (tip_bready_run w opened) (refl, refl, refl, refl)
