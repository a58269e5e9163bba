-- ===== src/Dma/Room.antt =====
-- A block transfer stays within the caller's array.
use tipcie.Prelude.{
  ℕ, zero, suc, ◌+◌, ◌-◌, ◌*◌, ◌/◌, ◌≤◌, Bool-cases, inl, inr, Option, none, some, ℤ, pos, negsuc,
  error, bit_and, bit_or, ◌==◌, ◌≡◌, ◌⊎◌, ◌∙◌, ◌^◌, refl, arith,
}
use tipcie.Machine.{Device, World, dma_load}
use tipcie.Format.{Buffer, store}
use tipcie.Dma.{clip, copy_words, give_up, transfer, settle, read_dma}

-- How many words an `int` leaves room for.
abbrev pub room : ℤ → ℕ
room (pos n) = n
room (negsuc _) = 0

clip-le : (w_cnt : ℕ) (nwrds : ℤ) → clip w_cnt nwrds ≤ room nwrds
unfolding clip
clip-le w_cnt (pos n) = ground arith
clip-le w_cnt (negsuc n) = omega arith

module _ (dev : Device) where
  -- The words from `ii` to `ii + left` may change, and no others behind them.
  copy_words-room :
      (left ii at : ℕ) (buf : Buffer) (w : World)
      → let r = (copy_words dev left ii at buf w).0 in
        (r.0 ≤ ii + left) × ((j : ℕ) → r.1 (ii + left + j) ≡ buf (ii + left + j))
  unfolding copy_words
  copy_words-room zero ii at buf w = (omega arith, λ j. refl)
  copy_words-room (suc left) ii at buf w =
      let v = (dma_load dev at w).0 in
      let more = copy_words-room left (suc ii) (at + 1) (store buf ii v) (dma_load dev at w).1 in
      elim (Bool-cases (v == bit_or 0x8800_0000 ii)) [
        | inl trailer ↦ rw trailer (omega arith, λ j. ground arith)
        | inr word ↦ rw word (
          omega (arith, more.0),
          λ j.
              let e : ii + suc left + j ≡ suc ii + left + j = omega arith in
              rw e (more.1 j ∙ ground arith),
        )
      ]

-- A count of words within the room, or ERROR, and an array that is kept beyond the room.
unfoldable pub WithinRoom : ℤ → Buffer → ℤ × Buffer → Type 0
WithinRoom nwrds buf r =
    ((r.0 ≡ error) ⊎ ((k : ℕ) × (r.0 ≡ pos k) × (k ≤ room nwrds)))
    × ((j : ℕ) → r.1 (room nwrds + j) ≡ buf (room nwrds + j))

module _ (dev : Device) (buf : Buffer) (nwrds : ℤ) where
  give_up-WithinRoom : (at : ℕ) (w : World) → WithinRoom nwrds buf (give_up dev at buf w).0
  unfolding give_up WithinRoom
  give_up-WithinRoom at w = (inl refl, λ j. refl)

  transfer-WithinRoom :
      (at val : ℕ) (w : World) → WithinRoom nwrds buf (transfer dev at val nwrds buf w).0
  unfolding transfer WithinRoom
  transfer-WithinRoom at val w =
      let n = clip (bit_and (val / 2 ^ 16) 0xfff * 2) nwrds in
      let le = clip-le (bit_and (val / 2 ^ 16) 0xfff * 2) nwrds in
      let skipped = (dma_load dev at w).1 in
      let copied = copy_words-room dev n 0 (at + 1) buf skipped in
      (
        inr ((copy_words dev n 0 (at + 1) buf skipped).0.0, refl, omega (arith, copied.0)),
        λ j.
            let e : room nwrds + j ≡ 0 + n + (room nwrds - n + j) = omega (arith, le) in
            rw e (copied.1 (room nwrds - n + j)),
      )

  settle-WithinRoom :
      (at : ℕ) (found : Option ℕ) (w : World)
      → WithinRoom nwrds buf (settle dev at nwrds buf found w).0
  unfolding settle
  settle-WithinRoom at none w = give_up-WithinRoom at w
  settle-WithinRoom at (some val) w = transfer-WithinRoom at val w

  pub read_dma-WithinRoom : (w : World) → WithinRoom nwrds buf (read_dma dev buf nwrds w).0
  unfolding read_dma
  read_dma-WithinRoom w = settle-WithinRoom _ _ _
