-- ===== src/Format/Words.antt =====
-- Each test on a word as a condition on its fields, and the words that pass it.
use tipcie.Prelude.{ℕ, ◌+◌, ◌*◌, ◌%◌, ◌/◌, ◌^◌, ◌<◌, true, false, ◌≡◌, bit_and, arith}
use tipcie.Bits.Fields.{field, and-field, and-halves}
use tipcie.Format.{is_block_header, is_block_trailer, is_bank_header, is_event_header}

-- Bit 31 with type 0 and 27 bits of contents.
pub is_block_header-true : (low : ℕ) → low < 2 ^ 27 → is_block_header (2 ^ 31 + low) ≡ true
unfolding is_block_header
is_block_header-true low h =
    ground (arith, and-field 31 1 (2 ^ 31 + low), and-field 27 4 (2 ^ 31 + low))

pub is_block_trailer-true :
    (low : ℕ) → low < 2 ^ 27 → is_block_trailer (2 ^ 31 + 2 ^ 27 + low) ≡ true
unfolding is_block_trailer
is_block_trailer-true low h =
    ground (arith, and-field 31 1 (2 ^ 31 + 2 ^ 27 + low), and-field 27 4 (2 ^ 31 + 2 ^ 27 + low))

pub is_event_header-true :
    (type len : ℕ)
    → len < 2 ^ 16
    → type < 2 ^ 8
    → is_event_header (type * 2 ^ 24 + 2 ^ 16 + len) ≡ true
unfolding is_event_header
is_event_header-true type len h ht = ground (arith, and-field 16 8 (type * 2 ^ 24 + 2 ^ 16 + len))

bank_mask :
    (w : ℕ) → bit_and w 0xff10_0000 ≡ field 24 8 w * 2 ^ 24 + field 20 1 (w % 2 ^ 24) * 2 ^ 20
bank_mask w =
    ground
      (arith, and-halves 24 w 0xff10_0000, and-field 0 8 (w / 2 ^ 24), and-field 20 1 (w % 2 ^ 24))

pub is_bank_header-true :
    (tag level : ℕ)
    → tag < 16
    → level < 2 ^ 8
    → is_bank_header (0xff10_2000 + tag * 2 ^ 16 + level) ≡ true
unfolding is_bank_header
is_bank_header-true tag level ht hl = ground (
  arith,
  bank_mask (0xff10_2000 + tag * 2 ^ 16 + level),
  and-field 8 8 (0xff10_2000 + tag * 2 ^ 16 + level),
)

-- A word below 2 ^ 24 heads no bank.
pub is_bank_header-small : (w : ℕ) → w < 2 ^ 24 → is_bank_header w ≡ false
unfolding is_bank_header
is_bank_header-small w h = ground (arith, bank_mask w)
