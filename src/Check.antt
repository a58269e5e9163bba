-- ===== src/Check.antt =====
-- tipCheckTriggerBlock of TIpcieLib.c: is an array a trigger bank? Its printing is left out, and
-- with it the loops that only print the rest of a faulty bank.
pub mod Bank
use tipcie.Prelude.{
  ℕ, zero, suc, ◌+◌, ◌-◌, ◌/◌, ◌^◌, Bool, true, false, not, ◌&&◌, bit_and, ℤ, ok, error, leb, ◌==◌,
  if◌then◌else◌,
}
use tipcie.Format.{Buffer, is_bank_header, is_event_header}

-- Whether `count` words from `iword` on lie within the bank's length.
pub words_fit : ℕ → ℕ → ℕ → Bool
words_fit zero iword blen = true
words_fit (suc count) iword blen = leb iword blen && words_fit count (suc iword) blen

-- The loop over the events. An event has a header and a number, and one word less than its length
-- behind these.
pub events_fit : ℕ → ℕ → ℕ → Buffer → Bool
unfolding words_fit
events_fit zero iword blen buf = true
events_fit (suc events) iword blen buf =
    let evlen = bit_and (buf iword) 0xffff in
    let rest = events_fit events (iword + 2 + (evlen - 1)) blen buf in
    leb iword blen
    && is_event_header (buf iword)
    && leb (iword + 1) blen
    && words_fit (evlen - 1) (iword + 2) blen
    && rest

pub tip_check_trigger_block : Buffer → ℤ
unfolding events_fit
tip_check_trigger_block buf =
    let blen = buf 0 in
    let blevel = bit_and (buf 1) 0xff in
    if is_bank_header (buf 1) && leb 1 blen && events_fit blevel 2 blen buf then ok else error
