-- ===== src/Fiber/Registers.antt =====
-- Bits of the fiber register and of the busy register: switched on and off, and read back.
use tipcie.Prelude.{
  ℕ, suc, ◌-◌, ◌*◌, ◌^◌, ◌<◌, ◌≤◌, each_case, ltb, Bool-cases, inl, inr, true, false, truthy, pos,
  ℤ, ok, ◌∷◌, ◌%◌, ◌/◌, ◌≡◌, ◌∙◌, refl, arith, bit_and, bit_or, if◌then◌else◌, ◌||◌,
}
use tipcie.Bits.Fields.{not32, and-field, mask}
use tipcie.Bits.Insert.{put_field, or-mask-put_field, and-not32-put_field}
use tipcie.Machine.{Device, World, read, write, lock, unlock}
use tipcie.Machine.Reg
use tipcie.Machine.Registers.{stored, Remembers}
use tipcie.Fiber.{tip_enable_fiber, tip_disable_fiber, tip_set_trigger_lock, tip_get_trigger_lock}

module _ (dev : Device) (start : ℕ) (mem : Remembers dev Reg.busy start) where
  abbrev locked : (bit : ℕ) → World → World
  locked bit w =
      let v = stored Reg.busy start w.log in
      record w {
        log = unlock ∷ write Reg.busy (put_field 6 1 bit v) ∷ read Reg.busy v ∷ lock ∷ w.log;
      }

  abbrev as_bit : ℤ → ℕ
  as_bit enable = if truthy enable then 1 else 0

  module _ (w : World) (opened : w.lib.opened ≡ true) (master : truthy w.lib.master ≡ true) where
    set_lock_run : (enable : ℤ) → tip_set_trigger_lock dev enable w ≡ (ok, locked (as_bit enable) w)
    unfolding tip_set_trigger_lock
    set_lock_run enable =
        let v = stored Reg.busy start w.log in
        let old = mem (lock ∷ w.log) in
        let small : v < 2 ^ 32 = omega (arith, old) in
        let set = or-mask-put_field 6 1 v in
        let cleared = and-not32-put_field 6 1 v small (omega arith) in
        elim (Bool-cases (truthy enable)) [
          | inl on ↦
              let fits : put_field 6 1 1 v % 2 ^ 32 ≡ put_field 6 1 1 v = omega arith in
              rw (opened, master, on, old, set, fits) refl
          | inr off ↦
              let fits : put_field 6 1 0 v % 2 ^ 32 ≡ put_field 6 1 0 v = omega arith in
              rw (opened, master, off, old, cleared, fits) refl
        ]

    locked-busy :
        (bit : ℕ)
        → bit < 2
        → stored Reg.busy start (locked bit w).log ≡ put_field 6 1 bit (stored Reg.busy start w.log)
    locked-busy bit fits = omega (arith, mem (lock ∷ w.log))

    get_lock_run : (bit : ℕ) → bit < 2 → (tip_get_trigger_lock dev (locked bit w)).0 ≡ pos bit
    unfolding tip_get_trigger_lock
    get_lock_run bit fits =
        let x = put_field 6 1 bit (stored Reg.busy start w.log) in
        let back : bit_and x 0x40 / 2 ^ 6 ≡ bit = omega (arith, and-field 6 1 x) in
        rw (opened, master, mem (lock ∷ (locked bit w).log) ∙ locked-busy bit fits, back)
          (ground arith)

    -- On an open library of a master whose card remembers the busy register, tip_set_trigger_lock
    -- returns OK, sets the trigger lock bit (6) or clears it, keeps the other bits of the register,
    -- and tip_get_trigger_lock reads it back as 1 or 0.
    pub tip_set_trigger_lock-get :
        (enable : ℤ)
        → let r = tip_set_trigger_lock dev enable w in
          (r.0 ≡ ok)
          × (stored Reg.busy start r.1.log
              ≡ put_field 6 1 (as_bit enable) (stored Reg.busy start w.log))
          × ((tip_get_trigger_lock dev r.1).0 ≡ pos (as_bit enable))
    tip_set_trigger_lock-get enable =
        let fits : as_bit enable < 2 = ground arith in
        rw (set_lock_run enable)
          (refl, locked-busy (as_bit enable) fits, get_lock_run (as_bit enable) fits)

module _ (dev : Device) (start : ℕ) (mem : Remembers dev Reg.fiber start) where
  IsSwitch : World → ℕ → Type 0
  IsSwitch w fiber =
      let v = stored Reg.fiber start w.log in
      let on = tip_enable_fiber dev fiber w in
      let off = tip_disable_fiber dev fiber w in
      (on.0 ≡ ok)
      × (stored Reg.fiber start on.1.log ≡ put_field (fiber - 1) 1 1 v)
      × (stored Reg.fiber start off.1.log ≡ put_field (fiber - 1) 1 0 v)

  module _ (w : World) (opened : w.lib.opened ≡ true) where
    IsSwitch-at :
        (k : ℕ)
        → k < 8
        → mask k 1 < 2 ^ 32
        → put_field k 1 1 (stored Reg.fiber start w.log) < 2 ^ 32
        → put_field k 1 0 (stored Reg.fiber start w.log) < 2 ^ 32
        → IsSwitch w (suc k)
    unfolding IsSwitch tip_enable_fiber tip_disable_fiber
    IsSwitch-at k lt hm e f =
        let v = stored Reg.fiber start w.log in
        let old = mem (lock ∷ w.log) in
        let set : bit_or v (1 * 2 ^ k) ≡ put_field k 1 1 v = or-mask-put_field k 1 v in
        let cleared : bit_and v (not32 (1 * 2 ^ k)) ≡ put_field k 1 0 v =
          and-not32-put_field k 1 v (omega (arith, old)) hm in
        let port : suc k - 1 ≡ k = omega arith in
        let in_range : (ltb (suc k) 1 || ltb 8 (suc k)) ≡ false = ground arith in
        let on_fits : put_field k 1 1 v % 2 ^ 32 ≡ put_field k 1 1 v = omega (arith, e) in
        let off_fits : put_field k 1 0 v % 2 ^ 32 ≡ put_field k 1 0 v = omega (arith, f) in
        rw (opened, in_range, port, old, set, cleared, on_fits, off_fits) (refl, on_fits, off_fits)

    IsSwitch-bit : (k : ℕ) → k < 8 → IsSwitch w (suc k)
    IsSwitch-bit k lt =
        each_case (λ k. IsSwitch w (suc k)) 8
          (let small : stored Reg.fiber start w.log < 2 ^ 32 = omega (arith, mem w.log) in
            (
              IsSwitch-at 0 (omega arith) (omega arith) (omega arith) (omega arith),
              (
                IsSwitch-at 1 (omega arith) (omega arith) (omega arith) (omega arith),
                (
                  IsSwitch-at 2 (omega arith) (omega arith) (omega arith) (omega arith),
                  (
                    IsSwitch-at 3 (omega arith) (omega arith) (omega arith) (omega arith),
                    (
                      IsSwitch-at 4 (omega arith) (omega arith) (omega arith) (omega arith),
                      (
                        IsSwitch-at 5 (omega arith) (omega arith) (omega arith) (omega arith),
                        (
                          IsSwitch-at 6 (omega arith) (omega arith) (omega arith) (omega arith),
                          (
                            IsSwitch-at 7 (omega arith) (omega arith) (omega arith) (omega arith),
                            tt,
                          ),
                        ),
                      ),
                    ),
                  ),
                ),
              ),
            ))
          k lt

  -- On an open library whose card remembers the fiber register, and for a fiber from 1 to 8,
  -- tip_enable_fiber returns OK and sets the bit of the fiber, tip_disable_fiber clears it, and both
  -- keep the other bits of the register.
  pub tip_enable_fiber-disable :
      (fiber : ℕ) (w : World)
      → w.lib.opened ≡ true
      → 1 ≤ fiber
      → fiber ≤ 8
      → let v = stored Reg.fiber start w.log in
        let on = tip_enable_fiber dev fiber w in
        let off = tip_disable_fiber dev fiber w in
        (on.0 ≡ ok)
        × (stored Reg.fiber start on.1.log ≡ put_field (fiber - 1) 1 1 v)
        × (stored Reg.fiber start off.1.log ≡ put_field (fiber - 1) 1 0 v)
  unfolding IsSwitch
  tip_enable_fiber-disable fiber w opened lo hi =
      let e : fiber ≡ suc (fiber - 1) = omega arith in
      rw e (IsSwitch-bit w opened (fiber - 1) (omega arith))
