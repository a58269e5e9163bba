-- ===== src/Readout/Chain.antt =====
-- Reading, checking and decoding fit together.
use tipcie.Prelude.{ℕ, suc, true, false, some, ok, pos, ◌∷◌, ◌≡◌, length}
use tipcie.Machine.{Device, World}
use tipcie.Format.{Buffer}
use tipcie.Format.Block.{Block, IsBlock, bank_words, block_words}
use tipcie.Format.Reads.{Reads}
use tipcie.Fifo.Stream.{Feeds, fifo_reads}
use tipcie.Readout.{tip_read_trigger_block}
use tipcie.Readout.Bank.{tip_read_trigger_block-bank}
use tipcie.Check.{tip_check_trigger_block}
use tipcie.Check.Bank.{tip_check_trigger_block-ok}
use tipcie.Decode.Bank.{Decodes, tip_decode_trigger_type-Decodes}

module _ (dev : Device) (stream : ℕ → ℕ) (feeds : Feeds dev stream) where
  -- If the card's FIFO gives out a well-formed block next, and the library is open and not set up
  -- for DMA, then tip_read_trigger_block returns a trigger bank and its count of words: the length
  -- word and the words of the bank stand at the start of the caller's array, tip_check_trigger_block
  -- accepts the array, and tip_decode_trigger_type finds in it the trigger type of each event.
  pub read-check-decode :
      (b : Block) (buf : Buffer) (w : World)
      → w.lib.opened ≡ true
      → w.lib.use_dma ≡ false
      → IsBlock b
      → Reads stream (fifo_reads w.log) (block_words b)
      → let count = pos (suc (length (bank_words b))) in
        (out : Buffer) × ((tip_read_trigger_block dev (some buf) w).0 ≡ (count, some out))
        × Reads out 0 (length (bank_words b) ∷ bank_words b)
        × (tip_check_trigger_block out ≡ ok)
        × Decodes out count 0 b.events
  read-check-decode b buf w opened pio fits h =
      let r = tip_read_trigger_block-bank dev stream feeds b buf w opened pio fits h in
      (
        r.0,
        r.1,
        r.2,
        tip_check_trigger_block-ok b r.0 fits r.2,
        tip_decode_trigger_type-Decodes b r.0 fits r.2,
      )
