-- ===== src/Format.antt =====
-- The words of a trigger block as TIpcieLib.c tells them apart, and the array that it writes to.
pub mod Block
pub mod Reads
pub mod Words
use tipcie.Prelude.{ℕ, suc, ◌/◌, ◌^◌, Bool, not, ◌&&◌, bit_and, ◌==◌, if◌then◌else◌}
use tipcie.Machine.Macro

-- Bit 31 says that the word has a type, which is four bits wide.
pub is_type_defined : ℕ → Bool
is_type_defined val = not (bit_and val Macro.data_type_define_mask == 0)

unfoldable pub is_block_header : ℕ → Bool
unfolding is_type_defined
is_block_header val =
    is_type_defined val && bit_and val Macro.word_type_mask == Macro.block_header_word_type

unfoldable pub is_block_trailer : ℕ → Bool
unfolding is_type_defined
is_block_trailer val =
    is_type_defined val && bit_and val Macro.word_type_mask == Macro.block_trailer_word_type

-- The trigger bank's header of CODA 3.0.
unfoldable pub is_bank_header : ℕ → Bool
is_bank_header val =
    bit_and val 0xff10_0000 / 2 ^ 16 == 0xff10 && bit_and val 0xff00 / 2 ^ 8 == 0x20

unfoldable pub is_event_header : ℕ → Bool
is_event_header val = bit_and val 0xff_0000 / 2 ^ 16 == 0x01

-- The caller's array, `volatile unsigned int *data`: its word at each index. How long it is the
-- functions are not told.
abbrev pub Buffer : Type 0
Buffer = ℕ → ℕ

abbrev pub store : Buffer → ℕ → ℕ → Buffer
store buf i v j = if j == i then v else buf j

-- What has been written so far: `data[dCnt++] = val`.
pub record Dest : Type 0 where
  pub d_cnt : ℕ
  pub words : Buffer

abbrev pub put : Dest → ℕ → Dest
put d val = record { d_cnt = suc d.d_cnt; words = store d.words d.d_cnt val }
