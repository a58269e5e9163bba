-- ===== src/History/Loop.antt =====
-- The loop over the history of sync codes ends.
use tipcie.Prelude.{
  ℕ, zero, suc, ◌+◌, ◌<◌, ◌≤◌, Bool, not, Option, none, some, truthy, ltb, if◌then◌else◌, ◌==◌,
  arith, Bool-cases, inl, inr,
}
use tipcie.Machine.{Device, World}
use tipcie.History.{tip_print_sync_history, history_loop, history_turn, history_fuel}

-- A number from `lo` to `hi` came back.
abbrev pub IsBetween : (lo hi : ℕ) → Option ℕ → Type 0
IsBetween lo hi none = ⊥
IsBetween lo hi (some n) = (lo ≤ n) × (n ≤ hi)

IsBetween-widen : (lo lo' hi : ℕ) (r : Option ℕ) → lo' ≤ lo → IsBetween lo hi r → IsBetween lo' hi r
IsBetween-widen lo lo' hi none le h = h
IsBetween-widen lo lo' hi (some n) le h = (omega (arith, h.0), h.1)

module _ (dev : Device) where
  history_loop-IsBetween :
      (fuel : ℕ) (master : Bool) (count : ℕ) (w : World)
      → 1025 < fuel + count
      → count ≤ 1024
      → IsBetween (count + 1) 1025 (history_loop dev fuel master count w).0
  unfolding history_loop
  history_loop-IsBetween zero master count w enough below = absurd (omega arith)
  history_loop-IsBetween (suc fuel) master count w enough below =
      let turned = history_turn dev master w in
      elim (Bool-cases (ltb 1024 (count + 1))) [
        | inl full ↦ rw full (omega arith, ground arith)
        | inr room ↦ elim (Bool-cases (turned.0 == 0)) [
          | inl last ↦ rw (room, last) (omega arith, ground arith)
          | inr more ↦
              let rest =
                history_loop-IsBetween fuel master (count + 1) turned.1 (omega arith)
                  (ground arith) in
              let wider = IsBetween-widen (count + 1 + 1) (count + 1) 1025 _ (omega arith) rest in
              rw (room, more) wider
        ]
      ]

  -- tip_print_sync_history ends, whatever the card answers: with an open library after at least one
  -- and at most 1025 entries, and after none if the library is not open. The fuel is enough.
  pub tip_print_sync_history-IsBetween :
      (w : World)
      → IsBetween
          (if not w.lib.opened then 0 else 1)
          (if not w.lib.opened then 0 else 1025)
          (tip_print_sync_history dev w).0
  unfolding tip_print_sync_history
  tip_print_sync_history-IsBetween w = elim (Bool-cases (not w.lib.opened)) [
    | inl closed ↦ rw closed (omega arith, omega arith)
    | inr opened ↦
        rw opened (
          history_loop-IsBetween history_fuel (truthy w.lib.master) 0 w (omega arith) (omega arith))
  ]
