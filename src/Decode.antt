-- ===== src/Decode.antt =====
-- tipDecodeTriggerType of TIpcieLib.c: the trigger type of an event of a bank, from 1.
pub mod Bank
use tipcie.Prelude.{
  ℕ, zero, suc, ◌+◌, ◌/◌, ◌^◌, bit_and, Option, none, some, ℤ, pos, negsuc, error, above, equals,
  ltb, leb, ◌&&◌, ◌==◌, if◌then◌else◌,
}
use tipcie.Format.{Buffer, is_bank_header, is_event_header}

-- The index of the first bank header, from `iword` on, with `left` = data_len - iword words to look
-- at.
pub find_bank_header : ℕ → ℕ → Buffer → Option ℕ
find_bank_header zero iword buf = none
find_bank_header (suc left) iword buf =
    let rest = find_bank_header left (suc iword) buf in
    if is_bank_header (buf iword) then some iword else rest

-- The loop that goes from event to event. `iword` grows in each turn, so `data_len` turns are
-- enough: with no turn left `iword` is at `data_len` or behind it, and the loop ends the same way.
pub find_event : ℕ → ℕ → ℕ → ℕ → ℕ → ℤ → Buffer → ℤ
find_event zero data_len iword ievent blocklevel event buf = error
find_event (suc turns) data_len iword ievent blocklevel event buf =
    let dataword = buf iword in
    let next =
      find_event turns data_len (iword + bit_and dataword 0xffff + 1) (ievent + 1) blocklevel event
        buf in
    let lost = find_event turns data_len (iword + 1) ievent blocklevel event buf in
    if ltb iword data_len && leb ievent blocklevel
    then (if is_event_header dataword
        then (if equals event ievent then pos (bit_and dataword 0xff00_0000 / 2 ^ 24) else next)
        else lost)
    else error

-- A negative length is no word.
abbrev pub word_count : ℤ → ℕ
word_count (pos n) = n
word_count (negsuc n) = 0

pub tip_decode_trigger_type : Buffer → ℤ → ℤ → ℤ
unfolding find_bank_header find_event
tip_decode_trigger_type buf data_len event =
    let n = word_count data_len in
    elim (find_bank_header n 0 buf) [
      | none ↦ error
      | some i ↦
          let blocklevel = bit_and (buf i) 0xff in
          if above event blocklevel then error else find_event n n (suc i) 1 blocklevel event buf
    ]
