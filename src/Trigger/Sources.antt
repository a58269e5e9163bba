-- ===== src/Trigger/Sources.antt =====
-- What tipSetTriggerSource chooses, and what tipEnableTriggerSource makes of it.
use tipcie.Prelude.{
  ℕ, ◌^◌, ◌+◌, Bool, true, false, ◌&&◌, truthy, leb, [], ◌∷◌, pos, negsuc, ℤ, ok, error, Option,
  some, none, ◌≡◌, if◌then◌else◌, get_elem?,
}
use tipcie.Machine.{World}
use tipcie.Trigger.{tip_set_trigger_source}

-- The sources that a master has by their numbers: the bit of P0, fiber 1, the front panel, the TS
-- inputs, TS revision 2 or the pulser, with those of loopback (2) and VME (4). A slave has fiber 1
-- (bit 1) and VME, and for the partitions 6 to 9 the bits 12 to 15. `none` is no source.
unfoldable pub source : (master : Bool) → ℤ → Option ℕ
source master (negsuc n) = none
source true (pos trig) = get_elem? (0x15 ∷ 0x16 ∷ 0x1c ∷ 0x34 ∷ 0x54 ∷ 0x94 ∷ []) trig
source false (pos trig) =
    if leb trig 10
    then some (if leb 6 trig && leb trig 9 then 0x12 + 2 ^ (trig + 6) else 0x12)
    else none

abbrev pub chosen : Option ℕ → World → ℤ × World
chosen none w = (error, w)
chosen (some s) w = (ok, record w { lib = record (w.lib) { trigger_source = s } })

AsChosen : World → ℕ → Type 0
AsChosen w trig =
    tip_set_trigger_source (pos trig) w ≡ chosen (source (truthy w.lib.master) (pos trig)) w
