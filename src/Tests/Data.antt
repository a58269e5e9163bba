-- ===== src/Tests/Data.antt =====
-- The theorems on trigger blocks, on a block with two events.
use tipcie.Prelude.{ℕ, ◌+◌, some, ok, pos, [], ◌∷◌, ◌≡◌, refl, length}
use tipcie.Format.{Buffer, store, is_block_header}
use tipcie.Format.Block.{bank_words, block_words}
use tipcie.Format.Reads.{Reads}
use tipcie.Fifo.Stream.{fifo_reads}
use tipcie.Readout.{tip_read_block, tip_read_trigger_block}
use tipcie.Readout.Bank.{tip_read_block-words}
use tipcie.Readout.Chain.{read-check-decode}
use tipcie.Readout.Fallback.{tip_read_trigger_block-refused}
use tipcie.Check.{tip_check_trigger_block}
use tipcie.Check.Bank.{tip_check_trigger_block-ok}
use tipcie.Decode.{tip_decode_trigger_type}
use tipcie.Decode.Bank.{Decodes, tip_decode_trigger_type-event}
use tipcie.Tests.{sample_block, sample_block-IsBlock, stream, nth, card, memory, ready, zeros}

read-check-decode_example :
    (out : Buffer) × ((tip_read_trigger_block card (some zeros) ready).0 ≡ (pos 10, some out))
    × Reads out 0 (length (bank_words sample_block) ∷ bank_words sample_block)
    × (tip_check_trigger_block out ≡ ok)
    × Decodes out (pos 10) 0 sample_block.events
unfolding fifo_reads
read-check-decode_example =
    read-check-decode card stream (λ l. refl) sample_block zeros ready refl refl
      sample_block-IsBlock
      (refl, (refl, (refl, (refl, (refl, (refl, (refl, (refl, (refl, (refl, (refl, tt)))))))))))

tip_read_block-words_example :
    (out : Buffer) × ((tip_read_block card (some zeros) (pos 3) (pos 0) ready).0
      ≡ (pos 11, some out))
    × Reads out 0 (block_words sample_block)
    × ((j : ℕ) → out (11 + j) ≡ 0)
unfolding fifo_reads
tip_read_block-words_example =
    tip_read_block-words card stream (λ l. refl) sample_block zeros (pos 3) (pos 0) ready refl refl
      sample_block-IsBlock
      (refl, (refl, (refl, (refl, (refl, (refl, (refl, (refl, (refl, (refl, (refl, tt)))))))))))

-- The array that holds the bank.
abbrev bank : Buffer
bank = nth (9 ∷ bank_words sample_block)

tip_check_trigger_block-ok_example : tip_check_trigger_block bank ≡ ok
tip_check_trigger_block-ok_example =
    tip_check_trigger_block-ok sample_block bank sample_block-IsBlock
      (refl, (refl, (refl, (refl, (refl, (refl, (refl, (refl, (refl, (refl, tt))))))))))

tip_decode_trigger_type-event_example : tip_decode_trigger_type bank (pos 10) (pos 2) ≡ pos 0x21
tip_decode_trigger_type-event_example =
    tip_decode_trigger_type-event sample_block bank 1
      (record { trigger_type = 0x21; number = 8; rest = 0x1300 ∷ 0x5 ∷ [] }) sample_block-IsBlock
      (refl, (refl, (refl, (refl, (refl, (refl, (refl, (refl, (refl, (refl, tt)))))))))) refl

-- 0x1234_5678 is no block header; bits 16 to 23 of the block level register are 0x34.
tip_read_trigger_block-refused_example :
    (tip_read_trigger_block memory (some zeros) ready).0
    ≡ (pos 2, some (store (store (store zeros 0 0x1234_5678) 0 1) 1 0xff10_2034))
unfolding is_block_header
tip_read_trigger_block-refused_example =
    tip_read_trigger_block-refused memory zeros ready refl refl refl
