-- ===== src/Latency/Result.antt =====
-- When FiberMeas succeeds, and what it leaves behind.
use tipcie.Prelude.{
  ℕ, ◌+◌, ◌-◌, ◌*◌, ◌%◌, ◌/◌, ◌^◌, ltb, true, false, ◌||◌, not, ◌&&◌, ◌==◌, bit_and, bit_or, ◌∙◌,
  to_u32, ok, error, equals, Bool-cases, inl, inr, ◌∷◌, ◌≡◌, refl, ap, arith, if◌then◌else◌,
}
use tipcie.Bits.{or_comm}
use tipcie.Bits.Fields.{field, and-field, or-low}
use tipcie.Machine.{Device, Globals, World, read, write, lock, unlock, sleep}
use tipcie.Machine.Reg
use tipcie.Machine.Macro
use tipcie.Fiber.{tip_get_clock_source, three_bytes}
use tipcie.Latency.{measure, fail, fiber_meas}

three_bytes-times : (x : ℕ) → three_bytes x % 2 ^ 32 ≡ x % 2 ^ 8 * 0x101_0100
three_bytes-times x =
    let byte = x % 2 ^ 8 in
    let low : bit_and x 0xff ≡ byte = omega (arith, and-field 0 8 x) in
    let two : bit_or (byte * 2 ^ 8) (byte * 2 ^ 16) ≡ byte * 2 ^ 16 + byte * 2 ^ 8 =
      or_comm (byte * 2 ^ 8) (byte * 2 ^ 16) ∙ or-low 16 byte (byte * 2 ^ 8) (omega arith) in
    let three : bit_or (byte * 2 ^ 16 + byte * 2 ^ 8) (byte * 2 ^ 24)
        ≡ byte * 2 ^ 24 + (byte * 2 ^ 16 + byte * 2 ^ 8) =
      or_comm (byte * 2 ^ 16 + byte * 2 ^ 8) (byte * 2 ^ 24)
      ∙ or-low 24 byte (byte * 2 ^ 16 + byte * 2 ^ 8) (omega arith) in
    rw (low, two, three) (omega arith)

kept_latency :
    (v : ℕ) → bit_and v Macro.fiberlatencymeasurement_data_mask / 2 ^ 23 / 2 ≡ field 24 8 v
kept_latency v = omega (arith, and-field 23 9 v)

set_latency : (v : ℕ) → bit_and (v / 2 ^ 23) 0x1ff / 2 ≡ field 24 8 v
set_latency v = omega (arith, and-field 0 9 (v / 2 ^ 23))

module _ (dev : Device) where
  -- The world in which the first try starts, and the two tries.
  abbrev begun : World → World
  begun w = let c = (tip_get_clock_source dev w).1 in record c { log = lock ∷ c.log }

  abbrev pub first : World → ℕ × World
  first w = measure dev (begun w)

  abbrev pub second : World → ℕ × World
  second w = measure dev (first w).1

  clock_source-keeps : (w : World) → (tip_get_clock_source dev w).1.lib ≡ w.lib
  unfolding tip_get_clock_source
  clock_source-keeps w = elim (Bool-cases w.lib.opened) [
    | inl opened ↦ rw opened refl
    | inr closed ↦ rw closed refl
  ]

  -- A card that does not run on the clock of fiber 1 gets the default delay 0x1f1f_1f00, and
  -- fiber_meas returns ERROR and keeps the latency in the library's variable. Else, with the bits 24 to 31 of what
  -- the two tries read as the two latencies: it returns OK exactly if both are the same and not 0,
  -- leaves the latency in the library's variable then and 0 otherwise; in every case the delay that
  -- it writes, before it reads it back and unlocks, has the lowest byte of the offset less the
  -- second latency in each of its three upper bytes.
  pub fiber_meas-result :
      (w : World)
      → let r = fiber_meas dev w in
        let clock = tip_get_clock_source dev w in
        let one = field 24 8 (first w).0 in
        let two = field 24 8 (second w).0 in
        let good = one == two && not (two == 0) in
        let end = (second w).1 in
        let offset = to_u32 w.lib.fiber_latency_offset in
        let delay = (offset + 2 ^ 32 - two) % 2 ^ 8 * 0x101_0100 in
        let on_fiber = equals clock.0 Macro.clock_hfbr1 in
        (r.0 ≡ (if on_fiber && good then ok else error))
        × (r.1.lib.fiber_latency_measurement
            ≡ (if on_fiber then if good then two else 0 else w.lib.fiber_latency_measurement))
        × ((v : ℕ) × (r.1.log ≡ (
              if on_fiber
              then unlock
                ∷ read Reg.fiber_sync_delay v
                ∷ sleep 10
                ∷ write Reg.fiber_sync_delay delay
                ∷ sleep 100
                ∷ end.log
              else unlock ∷ write Reg.fiber_sync_delay 0x1f1f_1f00 ∷ lock ∷ clock.1.log)))
  unfolding fiber_meas measure fail
  fiber_meas-result w =
      let v1 = (first w).0 in
      let v2 = (second w).0 in
      let one = field 24 8 v1 in
      let two = field 24 8 v2 in
      let offset = to_u32 w.lib.fiber_latency_offset in
      let delay : ℕ = (offset + 2 ^ 32 - two) % 2 ^ 8 * 0x101_0100 in
      let written = three_bytes-times ((offset + 2 ^ 32 - two) % 2 ^ 32) in
      let kept = clock_source-keeps w in
      let from = to_u32 (tip_get_clock_source dev w).1.lib.fiber_latency_offset in
      let start : from ≡ offset = ap (λ (g : Globals). to_u32 g.fiber_latency_offset) kept in
      let word : three_bytes ((from + 2 ^ 32 - bit_and (v2 / 2 ^ 23) 0x1ff / 2) % 2 ^ 32) % 2 ^ 32
          ≡ delay =
        rw (start, set_latency v2, written) (omega arith) in
      let answer = λ (x : ℕ).
        dev.answer (sleep 10 ∷ write Reg.fiber_sync_delay x ∷ sleep 100 ∷ (second w).1.log)
          Reg.fiber_sync_delay
        % 2 ^ 32 in
      let log = λ (x : ℕ).
        unlock
        ∷ read Reg.fiber_sync_delay (answer x)
        ∷ sleep 10
        ∷ write Reg.fiber_sync_delay x
        ∷ sleep 100
        ∷ (second w).1.log in
      elim (Bool-cases (equals (tip_get_clock_source dev w).0 Macro.clock_hfbr1)) [
        | inr other ↦
            rw other (refl, ap (λ (g : Globals). g.fiber_latency_measurement) kept, (0, refl))
        | inl fiber ↦ elim (Bool-cases (one == two)) [
          | inr apart ↦
              rw (fiber, kept_latency v1, kept_latency v2, apart)
                (refl, refl, (answer delay, ap log word))
          | inl same ↦ elim (Bool-cases (two == 0)) [
            | inl none ↦
                let bad : not (ltb 0 two) || ltb 0xff two ≡ true = ground arith in
                rw (fiber, kept_latency v1, kept_latency v2, same, bad, none)
                  (refl, refl, (answer delay, ap log word))
            | inr some ↦
                let fine : not (ltb 0 two) || ltb 0xff two ≡ false = ground arith in
                rw (fiber, kept_latency v1, kept_latency v2, same, fine, some)
                  (refl, refl, (answer delay, ap log word))
          ]
        ]
      ]
