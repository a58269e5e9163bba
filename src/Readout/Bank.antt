-- ===== src/Readout/Bank.antt =====
-- From a well-formed block in the FIFO to the trigger bank in the caller's array.
use tipcie.Prelude.{
  ℕ, suc, ◌+◌, ◌*◌, ◌^◌, ◌<◌, true, false, some, ℤ, pos, [], ◌∷◌, ◌≡◌, sym, subst, ap, ◌∙◌, bit_and,
  arith, length, length-append,
}
use tipcie.Bits.Fields.{and-ones}
use tipcie.Machine.{Device, lock, World}
use tipcie.Format.{Buffer, store, is_block_header, is_block_trailer}
use tipcie.Format.Block.{Block, IsBlock, bank_words, trailer, block_words}
use tipcie.Format.Reads.{Reads, Reads-append, Reads-store, put_all, put_all-Reads, put_all-above}
use tipcie.Format.Words.{is_block_header-true, is_block_trailer-true}
use tipcie.Fifo.{read_fifo}
use tipcie.Fifo.Stream.{Feeds, fifo_reads, pull}
use tipcie.Fifo.RoundTrip.{start, finish, read_fifo_lem}
use tipcie.Readout.{tip_read_block, find_bank, tip_read_trigger_block}

-- What `find_bank` makes of an array that holds the block.
module _ (dev : Device) (b : Block) (fits : IsBlock b) where
  -- A header in front and a trailer that counts all words behind.
  find_bank-ends :
      (m : ℕ) (buf : Buffer) (w : World)
      → is_block_header (buf 0) ≡ true
      → is_block_trailer (buf (suc m)) ≡ true
      → bit_and (buf (suc m)) 0x3f_ffff ≡ suc (suc m)
      → m < 2 ^ 22
      → (find_bank dev (pos (suc (suc m))) (some buf) w).0 ≡ (pos (suc m), some (store buf 0 m))
  unfolding find_bank
  find_bank-ends m buf w head tail count small = ground arith

  find_bank-block :
      (buf : Buffer) (w : World)
      → Reads buf 0 (block_words b)
      → (find_bank dev (pos (length (block_words b))) (some buf) w).0
        ≡ (pos (suc (length (bank_words b))), some (store buf 0 (length (bank_words b))))
  find_bank-block buf w h =
      let n = suc (length (bank_words b)) in
      let total : length (block_words b) ≡ suc n =
        omega (arith, length-append (bank_words b) (trailer b ∷ [])) in
      let last = Reads-append buf 1 (bank_words b) (trailer b ∷ []) h.1 in
      let count : bit_and (trailer b) 0x3f_ffff ≡ suc n =
        omega (arith, and-ones 22 (trailer b), fits.count_fits) in
      let head : is_block_header (buf 0) ≡ true =
        rw h.0 (is_block_header-true b.label fits.label_fits) in
      let at_end : buf n ≡ trailer b = ap {A = ℕ} buf (omega arith) ∙ last.1.0 in
      let tail : is_block_trailer (buf n) ≡ true =
        rw at_end
          (is_block_trailer-true (length (bank_words b) + 2) (omega (arith, fits.count_fits))) in
      let m = length (bank_words b) in
      let found =
        find_bank-ends m buf w head tail (rw at_end count) (omega (arith, fits.count_fits)) in
      subst (λ k. (find_bank dev (pos k) (some buf) w).0 ≡ (pos n, some (store buf 0 m)))
        (sym total) found

-- The state in which the words of the block are read.
abbrev pub begin : World → World
begin w = record { lib = record (w.lib) { tried_again = 0 }; log = lock ∷ w.log }

pub tip_read_block-fifo :
    (dev : Device) (buf : Buffer) (nwrds rflag : ℤ) (w : World)
    → w.lib.opened ≡ true
    → w.lib.use_dma ≡ false
    → tip_read_block dev (some buf) nwrds rflag w
      ≡ (let r = read_fifo dev buf (begin w) in ((r.0.0, some r.0.1), r.1))
unfolding tip_read_block
tip_read_block-fifo dev buf nwrds rflag w opened pio = ground arith

module _ (dev : Device) (stream : ℕ → ℕ) (feeds : Feeds dev stream) where
  -- If the library is open and not set up for DMA, and the card's FIFO gives out a well-formed block
  -- next, then tip_read_block reads it whole into the caller's array, whatever room and flag it is
  -- given: its count of words is returned, the words stand at the start of the array, and the array
  -- is kept behind them.
  pub tip_read_block-words :
      (b : Block) (buf : Buffer) (nwrds rflag : ℤ) (w : World)
      → w.lib.opened ≡ true
      → w.lib.use_dma ≡ false
      → IsBlock b
      → Reads stream (fifo_reads w.log) (block_words b)
      → (out : Buffer) × ((tip_read_block dev (some buf) nwrds rflag w).0
          ≡ (pos (length (block_words b)), some out))
        × Reads out 0 (block_words b)
        × ((j : ℕ) → out (length (block_words b) + j) ≡ buf (length (block_words b) + j))
  unfolding fifo_reads
  tip_read_block-words b buf nwrds rflag w opened pio fits h = (
    (put_all (block_words b) (start buf)).words,
    rw (
      tip_read_block-fifo dev buf nwrds rflag w opened pio,
      read_fifo_lem dev stream feeds b buf (begin w) fits h,
    ),
    put_all-Reads (block_words b) (start buf),
    λ j. put_all-above (block_words b) (start buf) (length (block_words b) + j) (omega arith),
  )

  pub tip_read_trigger_block-bank :
      (b : Block) (buf : Buffer) (w : World)
      → w.lib.opened ≡ true
      → w.lib.use_dma ≡ false
      → IsBlock b
      → Reads stream (fifo_reads w.log) (block_words b)
      → (out : Buffer) × ((tip_read_trigger_block dev (some buf) w).0
          ≡ (pos (suc (length (bank_words b))), some out))
        × Reads out 0 (length (bank_words b) ∷ bank_words b)
  unfolding tip_read_trigger_block fifo_reads
  tip_read_trigger_block-bank b buf w opened pio fits h =
      let all = (put_all (block_words b) (start buf)).words in
      let n = length (bank_words b) in
      let there = put_all-Reads (block_words b) (start buf) in
      let after = finish dev (length (block_words b)) (pull (block_words b) (begin w)) in
      let kept = Reads-append all 1 (bank_words b) (trailer b ∷ []) there.1 in
      (
        store all 0 n,
        rw
            (
              tip_read_block-fifo dev buf (pos (5 * w.lib.block_level + 8)) (pos 0) w opened pio,
              read_fifo_lem dev stream feeds b buf (begin w) fits h,
            )
            (find_bank-block dev b fits all after there),
        (ground arith, Reads-store all 1 0 n (bank_words b) (omega arith) kept.0),
      )
