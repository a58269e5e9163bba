-- ===== src/Format/Block.antt =====
-- A trigger block as it is described in print: what the reader, the checker and the decoder of
-- TIpcieLib.c are held against.
use tipcie.Prelude.{ℕ, suc, ◌+◌, ◌*◌, ◌^◌, ◌<◌, List, [], ◌∷◌, ◌++◌, length}

-- A trigger's event: its number and the words that follow it (the time stamp, the higher bits, the
-- front panel's inputs, as the event format says).
pub record Event : Type 0 where
  pub trigger_type : ℕ
  pub number : ℕ
  pub rest : List ℕ

pub record Block : Type 0 where
  -- what the block header holds below its type: slot, block number, block level
  pub label : ℕ
  -- the kind of CODA 3.0 trigger bank
  pub tag : ℕ
  pub events : List Event

abbrev pub event_header : Event → ℕ
event_header e = e.trigger_type * 2 ^ 24 + 2 ^ 16 + suc (length e.rest)

abbrev pub event_words : Event → List ℕ
event_words e = event_header e ∷ e.number ∷ e.rest

abbrev pub events_words : List Event → List ℕ
events_words [] = []
events_words (e ∷ es) = event_words e ++ events_words es

abbrev pub bank_header : Block → ℕ
bank_header b = 0xff10_2000 + b.tag * 2 ^ 16 + length b.events

-- The words from the bank's header to the last event.
abbrev pub bank_words : Block → List ℕ
bank_words b = bank_header b ∷ events_words b.events

-- The trailer counts all words, itself and the block header included.
abbrev pub trailer : Block → ℕ
trailer b = 2 ^ 31 + 2 ^ 27 + (length (bank_words b) + 2)

abbrev pub block_words : Block → List ℕ
block_words b = (2 ^ 31 + b.label) ∷ bank_words b ++ trailer b ∷ []

-- Every field holds its value.
abbrev pub AreEvents : List Event → Type 0
AreEvents [] = Unit
AreEvents (e ∷ es) = (e.trigger_type < 2 ^ 8) × (suc (length e.rest) < 2 ^ 16) × AreEvents es

pub record IsBlock (b : Block) : Type 0 where
  pub label_fits : b.label < 2 ^ 27
  pub tag_fits : b.tag < 16
  pub level_fits : length b.events < 2 ^ 8
  pub count_fits : length (bank_words b) + 2 < 2 ^ 22
  pub events_fit : AreEvents b.events
