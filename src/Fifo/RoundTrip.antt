-- ===== src/Fifo/RoundTrip.antt =====
-- Programmed IO reads a well-formed block whole: word for word, with its count, and no further.
use tipcie.Prelude.{
  false, Bool-cases, inl, inr, ℕ, suc, ◌+◌, ◌%◌, ◌^◌, ◌<◌, pos, [], ◌∷◌, ◌≡◌, refl, bit_and, arith,
  length, ◌==◌, if◌then◌else◌,
}
use tipcie.Bits.Fields.{and-ones}
use tipcie.Machine.{Device, unlock, read, World, tip_read, tipunlock}
use tipcie.Machine.Reg
use tipcie.Format.{Buffer, Dest, put, store, is_block_header}
use tipcie.Format.Block.{
  Block, IsBlock, bank_header, events_words, trailer, block_words, bank_words,
}
use tipcie.Format.Reads.{Reads, Reads-append, put_all, put_all-append, put_all-count}
use tipcie.Prelude.{length-append}
use tipcie.Format.Words.{is_block_header-true, is_bank_header-true, is_block_trailer-true}
use tipcie.Fifo.{take_word, read_trailer, read_fifo}
use tipcie.Fifo.Stream.{
  Feeds, fifo_reads, pull, pull-append, fifo_reads-pull, take_word_lem, read_events_lem,
}

abbrev pub start : Buffer → Dest
start buf = record { d_cnt = 0; words = buf }

-- The accesses behind the last word: a filler is read if the count is odd, and the mutex given back.
abbrev pub finish : Device → ℕ → World → World
finish dev n w = (tipunlock (if n % 2 == 0 then w else (tip_read dev Reg.fifo w).1)).1

module _ (dev : Device) (stream : ℕ → ℕ) (feeds : Feeds dev stream) where
  read_trailer_lem :
      (count : ℕ) (d : Dest) (w : World)
      → count < 2 ^ 27
      → stream (fifo_reads w.log) ≡ 2 ^ 31 + 2 ^ 27 + count
      → read_trailer dev d w ≡ (
        (pos (suc d.d_cnt), (put d (2 ^ 31 + 2 ^ 27 + count)).words),
        finish dev (suc d.d_cnt) (pull ((2 ^ 31 + 2 ^ 27 + count) ∷ []) w),
      )
  unfolding read_trailer
  read_trailer_lem count d w small h =
      rw
        (
          take_word_lem dev stream feeds (2 ^ 31 + 2 ^ 27 + count) d w h,
          is_block_trailer-true count small,
        )
        (elim (Bool-cases (suc d.d_cnt % 2 == 0)) [ inl even ↦ rw even | inr odd ↦ rw odd ])

  pub read_fifo_lem :
      (b : Block) (buf : Buffer) (w : World)
      → IsBlock b
      → Reads stream (fifo_reads w.log) (block_words b)
      → read_fifo dev buf w ≡ (
        (pos (length (block_words b)), (put_all (block_words b) (start buf)).words),
        finish dev (length (block_words b)) (pull (block_words b) w),
      )
  unfolding read_fifo put_all pull fifo_reads
  read_fifo_lem b buf w fits h =
      let first = 2 ^ 31 + b.label in
      let second = bank_header b in
      let es = events_words b.events in
      let count = length (bank_words b) + 2 in
      let level : bit_and second 0xff ≡ length b.events =
        omega (arith, and-ones 8 second, fits.level_fits, fits.tag_fits) in
      let d = put (put (start buf) first) second in
      let w' = pull (first ∷ second ∷ []) w in
      let parts = Reads-append stream (fifo_reads w'.log) es (trailer b ∷ []) h.1.1 in
      let total : suc (put_all es d).d_cnt ≡ length (block_words b) =
        omega (arith, put_all-count es d, length-append es (trailer b ∷ [])) in
      rw (
        take_word_lem dev stream feeds first (start buf) w h.0,
        is_block_header-true b.label fits.label_fits,
        take_word_lem dev stream feeds second (put (start buf) first) (pull (first ∷ []) w) h.1.0,
        is_bank_header-true b.tag (length b.events) fits.tag_fits fits.level_fits,
        level,
        read_events_lem dev stream feeds b.events 20 d w' fits.events_fit parts.0,
        read_trailer_lem count (put_all es d) (pull es w') (omega (arith, fits.count_fits))
            (rw (fifo_reads-pull es w') parts.1.0),
        put_all-append es (trailer b ∷ []) d,
        pull-append es (trailer b ∷ []) w',
        total,
      )

-- A first word that is no block header is kept, and counted.
pub read_fifo-refused :
    (dev : Device) (buf : Buffer) (w : World)
    → is_block_header (dev.answer w.log Reg.fifo % 2 ^ 32) ≡ false
    → let v = dev.answer w.log Reg.fifo % 2 ^ 32 in
      read_fifo dev buf w
      ≡ ((pos 1, store buf 0 v), record w { log = unlock ∷ read Reg.fifo v ∷ w.log })
unfolding read_fifo take_word
read_fifo-refused dev buf w no_header = rw no_header refl
