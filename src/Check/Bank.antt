-- ===== src/Check/Bank.antt =====
-- The checker accepts the bank of every well-formed block.
use tipcie.Prelude.{
  ℕ, zero, suc, ◌+◌, ◌-◌, ◌≤◌, true, ok, List, [], ◌∷◌, ◌≡◌, refl, bit_and, arith, length,
  length-append,
}
use tipcie.Bits.Fields.{and-ones}
use tipcie.Format.{Buffer, is_event_header}
use tipcie.Format.Block.{
  Event, event_header, event_words, events_words, AreEvents, Block, IsBlock, bank_header,
  bank_words,
}
use tipcie.Format.Reads.{Reads, Reads-append}
use tipcie.Format.Words.{is_event_header-true, is_bank_header-true}
use tipcie.Check.{words_fit, events_fit, tip_check_trigger_block}

words_fit-true : (n i blen : ℕ) → i + n ≤ suc blen → words_fit n i blen ≡ true
unfolding words_fit
words_fit-true zero i blen h = refl
words_fit-true (suc n) i blen h = ground (arith, words_fit-true n (suc i) blen)

events_fit-true :
    (es : List Event) (c blen : ℕ) (buf : Buffer)
    → AreEvents es
    → Reads buf c (events_words es)
    → c + length (events_words es) ≤ suc blen
    → events_fit (length es) c blen buf ≡ true
unfolding events_fit
events_fit-true [] c blen buf fits h room = refl
events_fit-true (e ∷ es) c blen buf fits h room =
    let n = length e.rest in
    let more = length-append (event_words e) (events_words es) in
    let r = Reads-append buf c (event_words e) (events_words es) h in
    let evlen : bit_and (buf c) 0xffff - 1 ≡ n =
      rw h.0 (omega (arith, and-ones 16 (event_header e), fits.1)) in
    let header : is_event_header (buf c) ≡ true =
      rw h.0 (is_event_header-true e.trigger_type (suc n) fits.1 fits.0) in
    let next : c + 2 + n ≡ c + suc (suc n) = omega arith in
    let payload = words_fit-true n (c + 2) blen (omega (arith, more, room)) in
    let later =
      events_fit-true es (c + 2 + n) blen buf fits.2 (rw next r.1) (omega (arith, more, room)) in
    rw (evlen, header, payload, later) (ground (arith, more, room))

-- An array that starts with the length word and the words of the trigger bank of a well-formed
-- block is accepted by tip_check_trigger_block.
pub tip_check_trigger_block-ok :
    (b : Block) (buf : Buffer)
    → IsBlock b
    → Reads buf 0 (length (bank_words b) ∷ bank_words b)
    → tip_check_trigger_block buf ≡ ok
unfolding tip_check_trigger_block
tip_check_trigger_block-ok b buf fits h =
    let n = length (bank_words b) in
    let level : bit_and (bank_header b) 0xff ≡ length b.events =
      omega (arith, and-ones 8 (bank_header b), fits.level_fits, fits.tag_fits) in
    let bank = is_bank_header-true b.tag (length b.events) fits.tag_fits fits.level_fits in
    let events = events_fit-true b.events 2 n buf fits.events_fit h.1.1 (omega arith) in
    rw (h.1.0, bank, level, h.0, events) (ground arith)
