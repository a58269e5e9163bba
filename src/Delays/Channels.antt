-- ===== src/Delays/Channels.antt =====
-- The delay of each TS input set and read back.
use tipcie.Prelude.{
  ℕ, zero, suc, ◌+◌, ◌-◌, ◌*◌, ◌/◌, ◌%◌, ◌^◌, ◌<◌, ◌≤◌, bit_and, true, false, not, ◌||◌, ok, pos,
  ltb, if◌then◌else◌, ◌==◌, each_case, ◌∷◌, ◌≡◌, refl, arith, Bool-cases, inl, inr, ◌∙◌,
}
use tipcie.Bits.Fields.{mask, field, and-field}
use tipcie.Bits.Insert.{put_field}
use tipcie.Machine.{Device, World, lock}
use tipcie.Machine.Reg
use tipcie.Machine.Registers.{stored, Remembers}
use tipcie.Machine.Field.{field_set, set_field_run, set_field}
use tipcie.Delays.{tip_set_tsinput_delay, tip_get_tsinput_delay, delay_mask}

-- Three fields of 9 bits, 10 bits apart.
module _ (d v : ℕ) (hd : d < 2 ^ 9) (hv : v < 2 ^ 32) where
  IsSlot : (a b : ℕ) → Type 0
  IsSlot a b =
      field (10 * a) 9 (put_field (10 * b) 9 d v) ≡ (if a == b then d else field (10 * a) 9 v)

  slot_small : (b : ℕ) → b < 3 → put_field (10 * b) 9 d v < 2 ^ 32
  slot_small =
      each_case (λ b. put_field (10 * b) 9 d v < 2 ^ 32) 3
        (omega arith, (omega arith, (omega arith, tt)))

  slot_field :
      (a : ℕ)
      → a < 3
      → (b : ℕ) → b < 3
      → field (10 * a) 9 (put_field (10 * b) 9 d v) ≡ (if a == b then d else field (10 * a) 9 v)
  unfolding IsSlot
  slot_field =
      each_case (λ a. (b : ℕ) → b < 3 → IsSlot a b) 3
        (
          each_case (IsSlot 0) 3 (omega arith, (omega arith, (omega arith, tt))),
          (
            each_case (IsSlot 1) 3 (omega arith, (omega arith, (omega arith, tt))),
            (each_case (IsSlot 2) 3 (omega arith, (omega arith, (omega arith, tt))), tt),
          ),
        )

slot_mask : (b : ℕ) → b < 3 → mask (10 * b) 9 < 2 ^ 32
slot_mask =
    each_case (λ b. mask (10 * b) 9 < 2 ^ 32) 3 (omega arith, (omega arith, (omega arith, tt)))

Shifts : (v : ℕ) → ℕ → Type 0
Shifts v b = bit_and v (0x1ff * 2 ^ (10 * b)) / 2 ^ (10 * b) ≡ field (10 * b) 9 v

slot_shift :
    (v b : ℕ) → b < 3 → bit_and v (0x1ff * 2 ^ (10 * b)) / 2 ^ (10 * b) ≡ field (10 * b) 9 v
unfolding Shifts
slot_shift v = each_case (Shifts v) 3 (
  omega (arith, and-field 0 9 v),
  (omega (arith, and-field 10 9 v), (omega (arith, and-field 20 9 v), tt)),
)

-- The register of a channel counted from 0.
abbrev reg : ℕ → ℕ
reg c = Reg.fp_delay + 4 * (c / 3)

module _ (dev : Device) (start : ℕ)
    (mem : (i : ℕ) → Remembers dev (Reg.fp_delay + 4 * i) start) where
  get_run :
      (w : World)
      → w.lib.opened ≡ true
      → (c : ℕ) → c < 6
      → (tip_get_tsinput_delay dev (pos (suc c)) w).0
        ≡ pos (field (10 * (c % 3)) 9 (stored (reg c) start w.log))
  unfolding tip_get_tsinput_delay delay_mask
  get_run w opened c lt =
      let v = stored (reg c) start w.log in
      let guard : not (ltb 0 (suc c)) || ltb 6 (suc c) ≡ false = ground arith in
      let chan : suc c % 2 ^ 32 - 1 ≡ c = omega arith in
      rw (opened, guard, chan, mem (c / 3) (lock ∷ w.log), slot_shift v (c % 3) (omega arith))
        (ground arith)

  module _ (w : World) (opened : w.lib.opened ≡ true) (d : ℕ) (hd : d ≤ 0x1ff) where
    set_run :
        (c : ℕ)
        → c < 6
        → tip_set_tsinput_delay dev (pos (suc c)) (pos d) w
          ≡ set_field dev (reg c) (10 * (c % 3)) 9 d w
    unfolding tip_set_tsinput_delay delay_mask
    set_run c lt =
        let guard : not (ltb 0 (suc c)) || ltb 6 (suc c) ≡ false = ground arith in
        let allowed : ltb 0x1ff d ≡ false = ground arith in
        let chan : suc c % 2 ^ 32 - 1 ≡ c = omega arith in
        let delay : d % 2 ^ 32 ≡ d = omega arith in rw (opened, guard, allowed, chan, delay) refl

    -- On an open library whose card remembers the registers, for channels from 1 to 6 and a delay
    -- of at most 0x1ff: tip_set_tsinput_delay returns OK, and tip_get_tsinput_delay then returns the
    -- delay for this channel and for another channel what it returned before.
    pub tip_set_tsinput_delay-get :
        (chan other : ℕ)
        → 1 ≤ chan
        → chan ≤ 6
        → 1 ≤ other
        → other ≤ 6
        → let r = tip_set_tsinput_delay dev (pos chan) (pos d) w in
          (r.0 ≡ ok)
          × ((tip_get_tsinput_delay dev (pos other) r.1).0
              ≡ (if other == chan then pos d else (tip_get_tsinput_delay dev (pos other) w).0))
    tip_set_tsinput_delay-get zero other lo1 hi1 lo2 hi2 = absurd (omega arith)
    tip_set_tsinput_delay-get (suc b) zero lo1 hi1 lo2 hi2 = absurd (omega arith)
    tip_set_tsinput_delay-get (suc b) (suc a) lo1 hi1 lo2 hi2 =
        let v = stored (reg b) start w.log in
        let hv : v < 2 ^ 32 = omega (arith, mem (b / 3) w.log) in
        let small = slot_small d v (omega arith) hv (b % 3) (omega arith) in
        let hm = slot_mask (b % 3) (omega arith) in
        let run =
          set_field_run dev (reg b) start (mem (b / 3)) (10 * (b % 3)) 9 d (omega arith) hm w
            small in
        let after =
          field_set dev (reg b) start (mem (b / 3)) (10 * (b % 3)) 9 d (omega arith) hm w small in
        let new = get_run after opened a (omega arith) in
        let before = get_run w opened a (omega arith) in
        let slot = slot_field d v (omega arith) hv (a % 3) (omega arith) (b % 3) (omega arith) in
        let whole : put_field (10 * (b % 3)) 9 d v % 2 ^ 32 ≡ put_field (10 * (b % 3)) 9 d v =
          omega (arith, small) in
        elim (Bool-cases (reg a == reg b)) [
          | inl same ↦
              let e : reg a ≡ reg b = ground arith in
              let t : (a % 3 == b % 3) ≡ (suc a == suc b) = ground arith in
              rw (set_run b (omega arith) ∙ run, new, before, same, whole, slot, t, e)
                (refl, ground arith)
          | inr apart ↦
              let t : (suc a == suc b) ≡ false = ground arith in
              rw (set_run b (omega arith) ∙ run, new, before, apart, t) (refl, refl)
        ]
