-- ===== src/Dma/Mutex.antt =====
-- Whatever the DMA memory holds, the block transfer gives the mutex back once.
use tipcie.Prelude.{
  ℕ, ℤ, zero, suc, none, some, Option, Bool-cases, inl, inr, bit_or, bit_and, ◌==◌, ◌+◌, ◌*◌, ◌/◌,
  ◌^◌, arith,
}
use tipcie.Machine.{Device, dma_load}
use tipcie.Machine.Lock.{IsHeld, KeepsHeld, Releases}
use tipcie.Format.{Buffer, store}
use tipcie.Dma.{wait_word, dump, copy_words, give_up, transfer, read_dma, clip, settle, position}

module _ (dev : Device) where
  wait_word-KeepsHeld : (left at val : ℕ) → KeepsHeld (wait_word dev left at val)
  unfolding wait_word
  wait_word-KeepsHeld zero at val w h = h
  wait_word-KeepsHeld (suc left) at val w h =
      let r = dma_load dev at w in
      elim (Bool-cases (val == 0)) [
        | inl blank ↦
            rw blank
              (wait_word-KeepsHeld left at r.0 _ (record { taken = h.taken; clean = ground arith }))
        | inr found ↦ rw found h
      ]

  dump-KeepsHeld : (left at : ℕ) → KeepsHeld (dump dev left at)
  unfolding dump
  dump-KeepsHeld zero at w h = h
  dump-KeepsHeld (suc left) at w h =
      dump-KeepsHeld left (at + 1) _ (record { taken = h.taken; clean = ground arith })

  copy_words-KeepsHeld : (left ii at : ℕ) (buf : Buffer) → KeepsHeld (copy_words dev left ii at buf)
  unfolding copy_words
  copy_words-KeepsHeld zero ii at buf w h = h
  copy_words-KeepsHeld (suc left) ii at buf w h =
      let r = dma_load dev at w in
      let after : IsHeld r.1 = record { taken = h.taken; clean = ground arith } in
      elim (Bool-cases (r.0 == bit_or 0x8800_0000 ii)) [
        | inl trailer ↦ rw trailer after
        | inr word ↦
            rw word (copy_words-KeepsHeld left (suc ii) (at + 1) (store buf ii r.0) r.1 after)
      ]

  give_up-Releases : (at : ℕ) (buf : Buffer) → Releases (give_up dev at buf)
  unfolding give_up
  give_up-Releases at buf w h = ground (arith, dump-KeepsHeld 0x400 at w h)

  transfer-Releases :
      (at val : ℕ) (nwrds : ℤ) (buf : Buffer) → Releases (transfer dev at val nwrds buf)
  unfolding transfer
  transfer-Releases at val nwrds buf w h = ground (
    arith,
    copy_words-KeepsHeld (clip (bit_and (val / 2 ^ 16) 0xfff * 2) nwrds) 0 (at + 1) buf
        (dma_load dev at w).1 (record { taken = h.taken; clean = ground arith }),
  )

  settle-Releases :
      (at : ℕ) (nwrds : ℤ) (buf : Buffer) (found : Option ℕ)
      → Releases (settle dev at nwrds buf found)
  unfolding settle
  settle-Releases at nwrds buf none = give_up-Releases at buf
  settle-Releases at nwrds buf (some val) = transfer-Releases at val nwrds buf

  pub read_dma-Releases : (buf : Buffer) (nwrds : ℤ) → Releases (read_dma dev buf nwrds)
  unfolding read_dma
  read_dma-Releases buf nwrds w h =
      let at = position w.lib.dma_pos in
      settle-Releases at nwrds buf _ _
        (wait_word-KeepsHeld 1000 at _ _ (record { taken = h.taken; clean = ground arith }))
