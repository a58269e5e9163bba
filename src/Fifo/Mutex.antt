-- ===== src/Fifo/Mutex.antt =====
-- Whatever the card's FIFO gives out, programmed IO gives the mutex back once.
use tipcie.Prelude.{ℕ, zero, suc, Bool-cases, inl, inr, bit_and, arith}
use tipcie.Machine.{Device}
use tipcie.Machine.Lock.{KeepsHeld, Releases}
use tipcie.Format.{Buffer, Dest, is_event_header}
use tipcie.Fifo.{take_word, read_words, read_events, read_trailer, read_fifo}

module _ (dev : Device) where
  take_word-KeepsHeld : (d : Dest) → KeepsHeld (take_word dev d)
  unfolding take_word
  take_word-KeepsHeld d w h = ground arith

  read_words-KeepsHeld : (n : ℕ) (d : Dest) → KeepsHeld (read_words dev n d)
  unfolding read_words
  read_words-KeepsHeld zero d w h = h
  read_words-KeepsHeld (suc n) d w h =
      let r = take_word dev d w in read_words-KeepsHeld n r.0.1 r.1 (take_word-KeepsHeld d w h)

  read_events-KeepsHeld : (n left : ℕ) (d : Dest) → KeepsHeld (read_events dev n left d)
  unfolding read_events
  read_events-KeepsHeld zero left d w h = h
  read_events-KeepsHeld (suc n) zero d w h =
      let r = take_word dev d w in
      let after = take_word-KeepsHeld d w h in
      elim (Bool-cases (is_event_header r.0.0)) [
        | inl fine ↦ rw fine (
            let ws = read_words dev (bit_and r.0.0 0xffff) r.0.1 r.1 in
            read_events-KeepsHeld n zero ws.0 ws.1
              (read_words-KeepsHeld (bit_and r.0.0 0xffff) r.0.1 r.1 after))
        | inr bad ↦ rw bad (record { taken = after.taken; clean = after.clean })
      ]
  read_events-KeepsHeld (suc n) (suc left) d w h =
      let r = take_word dev d w in
      let after = take_word-KeepsHeld d w h in
      elim (Bool-cases (is_event_header r.0.0)) [
        | inl fine ↦ rw fine (
            let ws = read_words dev (bit_and r.0.0 0xffff) r.0.1 r.1 in
            read_events-KeepsHeld n (suc left) ws.0 ws.1
              (read_words-KeepsHeld (bit_and r.0.0 0xffff) r.0.1 r.1 after))
        | inr bad ↦ rw bad (
            read_events-KeepsHeld (suc n) left r.0.1 _
              (record { taken = after.taken; clean = after.clean }))
      ]

  read_trailer-Releases : (d : Dest) → Releases (read_trailer dev d)
  unfolding read_trailer take_word
  read_trailer-Releases d w h = ground arith

  pub read_fifo-Releases : (buf : Buffer) → Releases (read_fifo dev buf)
  unfolding read_fifo
  read_fifo-Releases buf w h =
      grind (arith, take_word-KeepsHeld, read_events-KeepsHeld, read_trailer-Releases)
