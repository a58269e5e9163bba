-- ===== src/Decode/Bank.antt =====
-- The decoder finds the trigger type of every event of a well-formed bank.
use tipcie.Prelude.{
  ℕ, zero, suc, ◌+◌, ◌/◌, ◌^◌, ◌≤◌, true, false, ℤ, pos, some, List, [], ◌∷◌, ◌≡◌, refl, bit_and,
  arith, length, length-append, get_elem?, get_elem?-lt,
}
use tipcie.Bits.Fields.{and-ones, and-field}
use tipcie.Format.{Buffer, is_event_header, is_bank_header}
use tipcie.Format.Block.{
  Event, event_header, event_words, events_words, AreEvents, Block, IsBlock, bank_header,
  bank_words,
}
use tipcie.Format.Reads.{Reads, Reads-append}
use tipcie.Format.Words.{is_event_header-true, is_bank_header-true, is_bank_header-small}
use tipcie.Decode.{find_event, tip_decode_trigger_type}

module _ (data_len blocklevel : ℕ) (buf : Buffer) where
  find_event_lem :
      (es : List Event) (turns c i k : ℕ) (e : Event)
      → AreEvents es
      → Reads buf c (events_words es)
      → c + length (events_words es) ≤ data_len
      → i + length es ≤ suc blocklevel
      → length es ≤ turns
      → get_elem? es k ≡ some e
      → find_event turns data_len c i blocklevel (pos (i + k)) buf ≡ pos e.trigger_type
  unfolding find_event
  find_event_lem [] turns c i k e fits h room level fuel at = ground arith
  find_event_lem (x ∷ es) zero c i k e fits h room level fuel at = absurd (omega arith)
  find_event_lem (x ∷ es) (suc turns) c i zero e fits h room level fuel at =
      let n = suc (length x.rest) in
      let header : is_event_header (buf c) ≡ true =
        rw h.0 (is_event_header-true x.trigger_type n fits.1 fits.0) in
      let type : bit_and (buf c) 0xff00_0000 / 2 ^ 24 ≡ x.trigger_type =
        rw h.0 (omega (arith, and-field 24 8 (event_header x), fits.1, fits.0)) in
      ground (arith, header, type)
  find_event_lem (x ∷ es) (suc turns) c i (suc k) e fits h room level fuel at =
      let n = suc (length x.rest) in
      let more = length-append (event_words x) (events_words es) in
      let r = Reads-append buf c (event_words x) (events_words es) h in
      let header : is_event_header (buf c) ≡ true =
        rw h.0 (is_event_header-true x.trigger_type n fits.1 fits.0) in
      let len : bit_and (buf c) 0xffff ≡ n =
        rw h.0 (omega (arith, and-ones 16 (event_header x), fits.1)) in
      let next : c + n + 1 ≡ c + length (event_words x) = omega arith in
      let event : i + suc k ≡ i + 1 + k = omega arith in
      let later =
        find_event_lem es turns (c + length (event_words x)) (i + 1) k e fits.2 r.1
          (omega (arith, more, room)) (omega arith) (omega arith) at in
      rw (header, len, next, event) (ground (arith, later))

length-le-words : (es : List Event) → length es ≤ length (events_words es)
length-le-words [] = omega arith
length-le-words (e ∷ es) =
    omega (arith, length-le-words es, length-append (event_words e) (events_words es))

-- In an array that starts with the length word and the words of the trigger bank of a well-formed
-- block, and with the count of words that tip_read_trigger_block returns, tip_decode_trigger_type
-- finds the trigger type of each event by the event's number in the block, from 1 on.
pub tip_decode_trigger_type-event :
    (b : Block) (buf : Buffer) (k : ℕ) (e : Event)
    → IsBlock b
    → Reads buf 0 (length (bank_words b) ∷ bank_words b)
    → get_elem? b.events k ≡ some e
    → tip_decode_trigger_type buf (pos (suc (length (bank_words b)))) (pos (suc k))
      ≡ pos e.trigger_type
unfolding tip_decode_trigger_type
tip_decode_trigger_type-event b buf k e fits h at =
    let n = length (bank_words b) in
    let level : bit_and (buf 1) 0xff ≡ length b.events =
      rw h.1.0 (omega (arith, and-ones 8 (bank_header b), fits.level_fits, fits.tag_fits)) in
    let bank : is_bank_header (buf 1) ≡ true =
      rw h.1.0 (is_bank_header-true b.tag (length b.events) fits.tag_fits fits.level_fits) in
    let first : is_bank_header (buf 0) ≡ false =
      rw h.0 (is_bank_header-small n (omega (arith, fits.count_fits))) in
    let below = get_elem?-lt b.events k at in
    let found =
      find_event_lem (suc n) (length b.events) buf b.events (suc n) 2 1 k e fits.events_fit h.1.1
        (omega arith) (omega arith) (omega (arith, length-le-words b.events)) at in
    let number : suc k ≡ 1 + k = omega arith in
    ground (arith, first, bank, level, below, found, number)

-- From the event with the number `k` + 1 on, the decoder gives the trigger types of the events.
abbrev pub Decodes : Buffer → ℤ → ℕ → List Event → Type 0
Decodes buf count k [] = Unit
Decodes buf count k (e ∷ es) =
    (tip_decode_trigger_type buf count (pos (suc k)) ≡ pos e.trigger_type)
    × Decodes buf count (suc k) es

Decodes_lem :
    (buf : Buffer) (count : ℤ) (k : ℕ) (es : List Event)
    → ((j : ℕ) (e : Event)
        → get_elem? es j ≡ some e
        → tip_decode_trigger_type buf count (pos (suc (k + j))) ≡ pos e.trigger_type)
    → Decodes buf count k es
Decodes_lem buf count k [] each = tt
Decodes_lem buf count k (e ∷ es) each =
    let here : suc k ≡ suc (k + 0) = omega arith in
    (
      rw here (each 0 e refl),
      Decodes_lem buf count (suc k) es λ j x at.
          let next : suc (suc k + j) ≡ suc (k + suc j) = omega arith in rw next (each (suc j) x at),
    )

pub tip_decode_trigger_type-Decodes :
    (b : Block) (buf : Buffer)
    → IsBlock b
    → Reads buf 0 (length (bank_words b) ∷ bank_words b)
    → Decodes buf (pos (suc (length (bank_words b)))) 0 b.events
tip_decode_trigger_type-Decodes b buf fits h = Decodes_lem buf _ 0 b.events λ j e at.
    let first : 0 + j ≡ j = omega arith in
    rw first (tip_decode_trigger_type-event b buf j e fits h at)
