-- ===== src/Window/Registers.antt =====
-- The four settings of the trigger window register, each set and read back.
use tipcie.Prelude.{
  ℕ, ◌*◌, ◌/◌, ◌%◌, ◌^◌, ◌<◌, ◌≤◌, bit_and, true, false, not, ◌||◌, ℤ, pos, to_int, to_u32, above,
  ltb, if◌then◌else◌, ◌∷◌, ◌≡◌, refl, ap, arith, ◌∙◌,
}
use tipcie.Bits.Fields.{mask, field, and-field}
use tipcie.Bits.Insert.{put_field}
use tipcie.Machine.{Device, World, lock}
use tipcie.Machine.Reg
use tipcie.Machine.Registers.{stored, Remembers}
use tipcie.Machine.Field.{field_set, set_field_run, stored-field_set, set_field}
use tipcie.Window.{
  tip_set_trigger_window, tip_get_trigger_window, tip_set_trigger_inhibit_window,
  tip_get_trigger_inhibit_window, tip_set_trig21_delay, tip_get_trig21_delay,
  tip_set_trigger_latch_on_level, tip_get_trigger_latch_on_level,
}

-- The window, the inhibit window, the delay and the latch, as the library reads them.
pub settings : Device → World → ℤ × ℤ × ℤ × ℤ
settings dev w = (
  (tip_get_trigger_window dev w).0,
  (tip_get_trigger_inhibit_window dev w).0,
  (tip_get_trig21_delay dev w).0,
  (tip_get_trigger_latch_on_level dev w).0,
)

abbrev as_bit : ℤ → ℕ
as_bit enable = if above enable 0 then 1 else 0

fields : ℕ → ℤ × ℤ × ℤ × ℤ
fields v = (pos (field 0 8 v), pos (field 8 8 v), pos (field 16 9 v), pos (field 31 1 v))

to_int-small : (n x : ℕ) → x ≡ n → n < 2 ^ 31 → to_int x ≡ pos n
to_int-small n x e h = ground arith

module _ (dev : Device) (start : ℕ) (mem : Remembers dev Reg.trigger_window start) where
  abbrev reg : World → ℕ
  reg w = stored Reg.trigger_window start w.log

  settings-fields : (w : World) → w.lib.opened ≡ true → settings dev w ≡ fields (reg w)
  unfolding settings fields tip_get_trigger_window tip_get_trigger_inhibit_window
      tip_get_trig21_delay tip_get_trigger_latch_on_level
  settings-fields w opened =
      let v = reg w in
      let old = mem (lock ∷ w.log) in
      let a : to_int (bit_and v 0xff) ≡ pos (field 0 8 v) =
        to_int-small _ _ (omega (arith, and-field 0 8 v)) (omega arith) in
      let b : to_int (bit_and v 0xff00 / 2 ^ 8) ≡ pos (field 8 8 v) =
        to_int-small _ _ (omega (arith, and-field 8 8 v)) (omega arith) in
      let c : to_int (bit_and v 0x1ff_0000 / 2 ^ 16) ≡ pos (field 16 9 v) =
        to_int-small _ _ (omega (arith, and-field 16 9 v)) (omega arith) in
      let d : to_int (bit_and v 0x8000_0000 / 2 ^ 31) ≡ pos (field 31 1 v) =
        to_int-small _ _ (omega (arith, and-field 31 1 v)) (omega arith) in
      rw (opened, old, a, b, c, d) refl

  module _ (w : World) (opened : w.lib.opened ≡ true) where
    set_window_run :
        (p : ℕ)
        → 1 ≤ p
        → p ≤ 0xff
        → tip_set_trigger_window dev (pos p) w ≡ set_field dev Reg.trigger_window 0 8 p w
    unfolding tip_set_trigger_window
    set_window_run p lo hi =
        let guard : not (ltb 0 p) || ltb 0xff p ≡ false = ground arith in
        let e : p % 2 ^ 32 ≡ p * 1 = omega arith in rw (opened, guard, e) refl

    set_inhibit_run :
        (p : ℕ)
        → 1 ≤ p
        → p ≤ 0xff
        → tip_set_trigger_inhibit_window dev (pos p) w ≡ set_field dev Reg.trigger_window 8 8 p w
    unfolding tip_set_trigger_inhibit_window
    set_inhibit_run p lo hi =
        let guard : not (ltb 0 p) || ltb 0xff p ≡ false = ground arith in
        let e : p % 2 ^ 32 ≡ p = omega arith in rw (opened, guard, e) refl

    set_delay_run :
        (p : ℕ)
        → p ≤ 0x1ff
        → tip_set_trig21_delay dev (pos p) w ≡ set_field dev Reg.trigger_window 16 9 p w
    unfolding tip_set_trig21_delay
    set_delay_run p hi =
        let guard : ltb 0x1ff p ≡ false = ground arith in
        let e : p % 2 ^ 32 ≡ p = omega arith in rw (opened, guard, e) refl

    set_latch_run :
        (enable : ℤ)
        → above enable 1 ≡ false
        → tip_set_trigger_latch_on_level dev enable w
          ≡ set_field dev Reg.trigger_window 31 1 (as_bit enable) w
    unfolding tip_set_trigger_latch_on_level
    set_latch_run enable h =
        let e : to_u32 (if not (above enable 0) then pos 0 else enable) ≡ as_bit enable =
          ground arith in
        rw (opened, e) refl

    -- One setting is replaced.
    set_field-settings :
        (s k p : ℕ)
        → p < 2 ^ k
        → mask s k < 2 ^ 32
        → put_field s k p (reg w) < 2 ^ 32
        → (x : ℤ × ℤ × ℤ × ℤ) → fields (put_field s k p (reg w)) ≡ x
        → settings dev (set_field dev Reg.trigger_window s k p w).1 ≡ x
    set_field-settings s k p fits hm small x e =
        let after = field_set dev Reg.trigger_window start mem s k p fits hm w small in
        let kept = stored-field_set dev Reg.trigger_window start mem s k p fits hm w small in
        let seen : settings dev after ≡ fields (reg after) = settings-fields after opened in
        let run = set_field_run dev Reg.trigger_window start mem s k p fits hm w small in
        ap (λ (r : ℤ × World). settings dev r.1) run ∙ seen ∙ ap fields kept ∙ e

  -- On an open library whose card remembers the register, for windows from 1 to 0xff, a delay up to
  -- 0x1ff and a latch of at most 1: what each of tip_set_trigger_window,
  -- tip_set_trigger_inhibit_window, tip_set_trig21_delay and tip_set_trigger_latch_on_level sets is
  -- read back by its own getter, the latch as 1 if the argument is above 0 and otherwise as 0, and
  -- the other three getters return what they returned before.
  pub tip_set_trigger_window-settings :
      (w : World)
      → w.lib.opened ≡ true
      → (window inhibit delay : ℕ) (enable : ℤ) → 1 ≤ window
      → window ≤ 0xff
      → 1 ≤ inhibit
      → inhibit ≤ 0xff
      → delay ≤ 0x1ff
      → above enable 1 ≡ false
      → let old = settings dev w in
        (settings dev (tip_set_trigger_window dev (pos window) w).1
          ≡ (pos window, old.1, old.2, old.3))
        × (settings dev (tip_set_trigger_inhibit_window dev (pos inhibit) w).1
            ≡ (old.0, pos inhibit, old.2, old.3))
        × (settings dev (tip_set_trig21_delay dev (pos delay) w).1
            ≡ (old.0, old.1, pos delay, old.3))
        × (settings dev (tip_set_trigger_latch_on_level dev enable w).1
            ≡ (old.0, old.1, old.2, pos (if above enable 0 then 1 else 0)))
  unfolding fields
  tip_set_trigger_window-settings w opened window inhibit delay enable lo hi lo' hi' top at_most =
      let v = reg w in
      let small = mem w.log in
      let bit : as_bit enable < 2 = ground arith in
      let shown = settings-fields w opened in
      let b = as_bit enable in
      rw
        (
          set_window_run w opened window lo hi,
          set_inhibit_run w opened inhibit lo' hi',
          set_delay_run w opened delay top,
          set_latch_run w opened enable at_most,
          shown,
        )
        (
          set_field-settings w opened 0 8 window (omega arith) (omega arith) (omega arith) _
              (ground arith),
          set_field-settings w opened 8 8 inhibit (omega arith) (omega arith) (omega arith) _
              (ground arith),
          set_field-settings w opened 16 9 delay (omega arith) (omega arith) (omega arith) _
              (ground arith),
          set_field-settings w opened 31 1 b (omega arith) (omega arith) (omega arith) _
              (ground arith),
        )
