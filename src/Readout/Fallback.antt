-- ===== src/Readout/Fallback.antt =====
-- What tipReadTriggerBlock makes of a FIFO whose next word is no block header.
use tipcie.Prelude.{
  ℕ, ◌*◌, ◌+◌, ◌%◌, ◌^◌, Bool, ap, true, false, some, ℤ, pos, error, ◌∷◌, ◌≡◌, refl, bit_or, arith,
  if◌then◌else◌,
}
use tipcie.Bits.Fields.{field, or-low}
use tipcie.Machine.{Device, M, World, lock, unlock, read}
use tipcie.Machine.Reg
use tipcie.Block.Levels.{block_level-fields}
use tipcie.Format.{Buffer, store, is_block_header}
use tipcie.Fifo.RoundTrip.{read_fifo-refused}
use tipcie.Readout.{
  tip_read_trigger_block, find_bank, find_header, between, fall_back, tip_generate_trigger_bank,
}
use tipcie.Readout.Bank.{tip_read_block-fifo, begin}

-- The log when the word `v` has been read and refused.
abbrev refused : ℕ → World → World
refused v w = record {
  lib = record (w.lib) { tried_again = 0 };
  log = unlock ∷ read Reg.fifo v ∷ lock ∷ w.log;
}

if-result {ℓ} :
    {A : Type ℓ} (c : Bool) (m n : M A) (a b : A) (w : World)
    → (m w).0 ≡ a
    → (n w).0 ≡ b
    → ((if c then m else n) w).0 ≡ (if c then a else b)
if-result true m n a b w ha hb = ha
if-result false m n a b w ha hb = hb

module _ (dev : Device) where
  -- The bank that is made up holds the card's block level.
  tip_generate_trigger_bank-level :
      (buf : Buffer) (w : World)
      → w.lib.opened ≡ true
      → let level = field 16 8 (dev.answer (lock ∷ w.log) Reg.blocklevel % 2 ^ 32) in
        (tip_generate_trigger_bank dev buf w).0
        ≡ (pos 2, store (store buf 0 1) 1 (0xff10_2000 + level))
  unfolding tip_generate_trigger_bank
  tip_generate_trigger_bank-level buf w opened =
      let level = field 16 8 (dev.answer (lock ∷ w.log) Reg.blocklevel % 2 ^ 32) in
      let header : bit_or 0xff10_2000 (level % 2 ^ 32) ≡ 0xff10_2000 + level =
        let e : level % 2 ^ 32 ≡ level = omega arith in
        rw e (or-low 13 0x7_f881 level (omega arith)) in
      rw ((block_level-fields dev w opened).0, header) refl

  -- If the library is open and not set up for DMA, and the next word of the FIFO is no block header,
  -- then tip_read_trigger_block writes that word to the caller's array; if faking is on it then
  -- returns 2 and an empty bank with the current block level of the card, and else ERROR.
  pub tip_read_trigger_block-refused :
      (buf : Buffer) (w : World)
      → w.lib.opened ≡ true
      → w.lib.use_dma ≡ false
      → is_block_header (dev.answer (lock ∷ w.log) Reg.fifo % 2 ^ 32) ≡ false
      → let v = dev.answer (lock ∷ w.log) Reg.fifo % 2 ^ 32 in
        let level = field 16 8 (dev.answer (lock ∷ (refused v w).log) Reg.blocklevel % 2 ^ 32) in
        let kept = store buf 0 v in
        let empty = store (store kept 0 1) 1 (0xff10_2000 + level) in
        (tip_read_trigger_block dev (some buf) w).0
        ≡ (if w.lib.fake_trigger_bank then (pos 2, some empty) else (error, some kept))
  unfolding tip_read_trigger_block find_bank find_header between fall_back
  tip_read_trigger_block-refused buf w opened pio no_header =
      let first = read_fifo-refused dev buf (begin w) no_header in
      let v = dev.answer (lock ∷ w.log) Reg.fifo % 2 ^ 32 in
      let read =
        tip_read_block-fifo dev buf (pos (5 * w.lib.block_level + 8)) (pos 0) w opened pio in
      let empty = tip_generate_trigger_bank-level (store buf 0 v) (refused v w) opened in
      rw (read, first, no_header)
        (if-result w.lib.fake_trigger_bank _ _ _ _ (refused v w)
          (ap (λ (r : ℤ × Buffer). (r.0, some r.1)) empty) refl)
