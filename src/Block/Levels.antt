-- ===== src/Block/Levels.antt =====
-- The block level register read, and a new level sent out.
use tipcie.Prelude.{
  ℕ, ◌+◌, ◌%◌, ◌/◌, ◌^◌, ◌<◌, true, false, truthy, leb, ◌&&◌, if◌then◌else◌, ◌||◌, ◌-◌, ℤ, to_u32,
  negsuc, above, equals, Bool, Bool-cases, inl, inr, pos, ok, error, ◌∷◌, ◌≡◌, refl, ◌∙◌, arith,
  bit_and, bit_or, ◌==◌,
}
use tipcie.Bits.{or-and, and_comm, or_comm}
use tipcie.Bits.Fields.{field, and-field, or-low}
use tipcie.Bits.Insert.{put_field, or-mask-put_field}
use tipcie.Machine.{Device, World, lock, unlock}
use tipcie.Machine.Reg
use tipcie.Machine.Registers.{stored, Remembers, commands}
use tipcie.Block.{
  tip_get_next_block_level, tip_get_current_block_level, tip_broadcast_next_block_level, broadcast,
}

module _ (dev : Device) where
  -- On an open library, tip_get_current_block_level returns bits 16 to 23 of the block level
  -- register and tip_get_next_block_level its bits 24 to 31; both keep both levels in the
  -- library's variables, and change no other.
  pub block_level-fields :
      (w : World)
      → w.lib.opened ≡ true
      → let v = dev.answer (lock ∷ w.log) Reg.blocklevel % 2 ^ 32 in
        let kept = record (w.lib) { block_level = field 16 8 v; next_block_level = field 24 8 v } in
        let current = tip_get_current_block_level dev w in
        let next = tip_get_next_block_level dev w in
        (current.0 ≡ pos (field 16 8 v))
        × (next.0 ≡ pos (field 24 8 v))
        × (current.1.lib ≡ kept)
        × (next.1.lib ≡ kept)
  unfolding tip_get_current_block_level tip_get_next_block_level
  block_level-fields w opened =
      let v = dev.answer (lock ∷ w.log) Reg.blocklevel % 2 ^ 32 in
      let current : bit_and v 0xff_0000 / 2 ^ 16 ≡ field 16 8 v = omega (arith, and-field 16 8 v) in
      let next : bit_and v 0xff00_0000 / 2 ^ 24 ≡ field 24 8 v = omega (arith, and-field 24 8 v) in
      rw (opened, current, next) (ground arith)

-- The levels that are sent out: 1 to 0xff, and all below 0.
abbrev pub in_range : ℤ → Bool
in_range (pos n) = leb 1 n && leb n 0xff
in_range (negsuc n) = true

allowed-in_range :
    (level : ℤ) → (above level 0xff || equals level 0) ≡ false → in_range level ≡ true
allowed-in_range (pos n) good = ground arith
allowed-in_range (negsuc n) good = refl

range-allowed : (level : ℤ) → in_range level ≡ true → (above level 0xff || equals level 0) ≡ false
range-allowed (pos n) fits = ground arith
range-allowed (negsuc n) fits = refl

-- What the command register gets.
abbrev pub command_word : ℤ → ℕ
command_word (pos n) = 0x800 + n
command_word (negsuc n) = put_field 11 1 1 (2 ^ 32 - 1 - n % 2 ^ 32)

command_word-code :
    (level : ℤ)
    → in_range level ≡ true
    → (bit_or 0x800 (to_u32 level) ≡ command_word level) × (command_word level < 2 ^ 32)
command_word-code (pos n) fits =
    let small : n % 2 ^ 32 ≡ n = ground arith in
    (rw small (or-low 8 8 n (ground arith)), ground arith)
command_word-code (negsuc n) fits =
    let v = 2 ^ 32 - 1 - n % 2 ^ 32 in (or_comm 0x800 v ∙ or-mask-put_field 11 1 v, omega arith)

module _ (dev : Device) (start : ℕ) (mem : Remembers dev Reg.trigsrc start) where
  -- A command is written while the VME source is on, and the source register ends as it was.
  broadcast-commands :
      (code : ℕ) (w : World)
      → code < 2 ^ 32
      → let r = broadcast dev code w in
        (commands start r.1.log ≡ (code, true) ∷ commands start w.log)
        × (stored Reg.trigsrc start r.1.log ≡ stored Reg.trigsrc start w.log)
  unfolding broadcast
  broadcast-commands code w fits =
      let v = stored Reg.trigsrc start w.log in
      let here = mem w.log in
      let code_fits : code % 2 ^ 32 ≡ code = omega arith in
      let old_fits : v % 2 ^ 32 ≡ v = omega (arith, here) in
      elim (Bool-cases (bit_and v 0x10 == 0)) [
        | inl off ↦
            let set : bit_or 0x10 v % 2 ^ 32 ≡ v + 0x10 =
              ground (arith, or-and 0x10 v, and_comm 0x10 v, and-field 4 1 v, here) in
            let is_on : ((v + 0x10) / 2 ^ 4 % 2 == 1) ≡ true = ground (arith, and-field 4 1 v) in
            let set_fits : (v + 0x10) % 2 ^ 32 ≡ v + 0x10 = ground (arith, and-field 4 1 v, here) in
            rw (here, off, code_fits, old_fits, set, set_fits, is_on) (refl, omega (arith, here))
        | inr on ↦
            let is_on : (v / 2 ^ 4 % 2 == 1) ≡ true = ground (arith, and-field 4 1 v) in
            rw (here, on, code_fits, is_on) (refl, refl)
      ]

  -- Reading the level back sends nothing.
  next_block_level-commands :
      (w : World)
      → let r = tip_get_next_block_level dev w in
        (commands start r.1.log ≡ commands start w.log)
        × (stored Reg.trigsrc start r.1.log ≡ stored Reg.trigsrc start w.log)
  unfolding tip_get_next_block_level
  next_block_level-commands w = elim (Bool-cases w.lib.opened) [
    | inl opened ↦ rw opened (refl, refl)
    | inr closed ↦ rw closed (refl, refl)
  ]

  -- The command goes out under the mutex.
  abbrev send : ℕ → World → World
  send code w =
      let sent = (broadcast dev code (record w { log = lock ∷ w.log })).1 in
      record sent { log = unlock ∷ sent.log }

  -- The command goes out, of whatever word.
  broadcast_run :
      (level : ℤ) (code : ℕ) (w : World)
      → w.lib.opened ≡ true
      → truthy w.lib.master ≡ true
      → in_range level ≡ true
      → bit_or 0x800 (to_u32 level) ≡ code
      → tip_broadcast_next_block_level dev level w
        ≡ (ok, (tip_get_next_block_level dev (send code w)).1)
  unfolding tip_broadcast_next_block_level
  broadcast_run level code w opened master fits same =
      let guard = range-allowed level fits in rw (opened, guard, master, same) refl

  broadcast_refused :
      (level : ℤ) (w : World)
      → w.lib.opened ≡ true
      → truthy w.lib.master && in_range level ≡ false
      → tip_broadcast_next_block_level dev level w ≡ (error, w)
  unfolding tip_broadcast_next_block_level
  broadcast_refused level w opened wrong = elim (Bool-cases (above level 0xff || equals level 0)) [
    | inl bad ↦ rw (opened, bad) refl
    | inr good ↦
        let inside = allowed-in_range level good in
        let slave : truthy w.lib.master ≡ false = ground (arith, inside) in
        rw (opened, good, slave) refl
  ]

  -- On an open library whose card remembers its trigger sources, tip_broadcast_next_block_level of
  -- a master returns OK and sends out one command with the VME trigger source on, for a level from 1
  -- to 0xff and for every negative one: 0x800 and the level, or the 32 bits of the negative level
  -- with bit 11 set. A slave, a level of 0 and a level above 0xff are an ERROR, and no command is
  -- sent. The trigger sources end as they were in every case.
  pub tip_broadcast_next_block_level-commands :
      (level : ℤ) (w : World)
      → w.lib.opened ≡ true
      → let r = tip_broadcast_next_block_level dev level w in
        let sent = truthy w.lib.master && in_range level in
        (r.0 ≡ (if sent then ok else error))
        × (commands start r.1.log ≡ (
            if sent
            then (command_word level, true) ∷ commands start w.log
            else commands start w.log))
        × (stored Reg.trigsrc start r.1.log ≡ stored Reg.trigsrc start w.log)
  tip_broadcast_next_block_level-commands level w opened =
      elim (Bool-cases (truthy w.lib.master && in_range level)) [
        | inr wrong ↦ rw (broadcast_refused level w opened wrong, wrong) (refl, refl, refl)
        | inl fits ↦
            let code = command_word level in
            let inside : in_range level ≡ true = ground arith in
            let word = command_word-code level inside in
            let run = broadcast_run level code w opened (ground arith) inside word.0 in
            let sent = broadcast-commands code (record w { log = lock ∷ w.log }) word.1 in
            let back = next_block_level-commands (send code w) in
            rw (run, fits) (refl, back.0 ∙ sent.0, back.1 ∙ sent.1)
      ]
