-- ===== src/Scalers/Live.antt =====
-- The live time is a share of the time since the last call.
use tipcie.Prelude.{
  ℕ, ◌+◌, ◌%◌, ◌^◌, ◌<◌, ◌≤◌, true, ℤ, pos, negsuc, ltb, ◌∷◌, ◌≡◌, refl, arith, Bool-cases, inl,
  inr,
}
use tipcie.Machine.{Device, World, Log, read, write, lock}
use tipcie.Machine.Reg
use tipcie.Machine.Macro
use tipcie.Scalers.{tip_live, live_counts, since}

-- A share in parts per thousand.
unfoldable pub IsPerMille : ℤ → Type 0
IsPerMille (pos n) = n ≤ 1000
IsPerMille (negsuc n) = ⊥

-- What tip_live uses of the floating-point arithmetic: a part is at most the whole.
abbrev pub IsShare : (ℕ → ℕ → ℤ) → Type 0
IsShare per_mille = (live total : ℕ) → live ≤ total → 0 < total → IsPerMille (per_mille live total)

live_counts-le :
    (sflag : ℤ) (live busy old_live old_busy : ℕ)
    → old_live ≤ live
    → old_busy ≤ busy
    → live + busy < 2 ^ 32
    → let r = live_counts sflag live (live + busy) old_live (old_live + old_busy) in r.0 ≤ r.1
unfolding live_counts since
live_counts-le sflag live busy old_live old_busy hl hb fits = ground arith

module _ (dev : Device) (per_mille : ℕ → ℕ → ℤ) (share : IsShare per_mille) where
  -- The counters as the card gives them once they are latched.
  abbrev latched : World → Log
  latched w = write Reg.reset Macro.reset_scalers_latch ∷ lock ∷ w.log

  abbrev pub live_read : World → ℕ
  live_read w = dev.answer (latched w) Reg.livetime % 2 ^ 32

  abbrev pub busy_read : World → ℕ
  busy_read w = dev.answer (read Reg.livetime (live_read w) ∷ latched w) Reg.busytime % 2 ^ 32

  -- On an open library whose last counts were `old_live` and `old_live + old_busy`, and with counters
  -- that have not gone back since and whose sum fits into 32 bits: tip_live returns a number from 0
  -- to 1000, for every flag, and keeps the new counts for the next call. The arithmetic of `float`
  -- is assumed to give such a number for a part of a whole.
  pub tip_live-IsPerMille :
      (sflag : ℤ) (old_busy : ℕ) (w : World)
      → w.lib.opened ≡ true
      → w.lib.old_total ≡ w.lib.old_live + old_busy
      → w.lib.old_live ≤ live_read w
      → old_busy ≤ busy_read w
      → live_read w + busy_read w < 2 ^ 32
      → let r = tip_live dev per_mille sflag w in
        IsPerMille r.0
        × (r.1.lib.old_live ≡ live_read w)
        × (r.1.lib.old_total ≡ live_read w + busy_read w)
  unfolding tip_live IsPerMille
  tip_live-IsPerMille sflag old_busy w opened total hl hb fits =
      let live = live_read w in
      let busy = busy_read w in
      let whole : (live + busy) % 2 ^ 32 ≡ live + busy = omega arith in
      let counts =
        live_counts sflag live (live + busy) w.lib.old_live (w.lib.old_live + old_busy) in
      let part = live_counts-le sflag live busy w.lib.old_live old_busy hl hb fits in
      elim (Bool-cases (ltb 0 counts.1)) [
        | inl some_time ↦
            rw (opened, whole, total, some_time)
              (share counts.0 counts.1 part (ground arith), refl, refl)
        | inr none_yet ↦ rw (opened, whole, total, none_yet) (omega arith, refl, refl)
      ]
