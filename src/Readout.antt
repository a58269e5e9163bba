-- ===== src/Readout.antt =====
-- TIpcieLib.c: reading a trigger block, and making a trigger bank of it.
pub mod Bank
pub mod Chain
pub mod Fallback
pub mod Room
pub mod Idle
pub mod Closed
use tipcie.Prelude.{
  Bool, true, false, ℕ, zero, suc, ◌+◌, ◌-◌, ◌*◌, ◌%◌, ◌^◌, not, bit_and, bit_or, Option, none,
  some, ℤ, pos, negsuc, ok, error, truthy, to_u32, to_int, ◌==◌, if◌then◌else◌,
}
use tipcie.Machine.{Device, M, pure, ◌>>=◌, ◌>>◌, globals, update, tiplock, tipunlock}
use tipcie.Format.{Buffer, store, is_block_header, is_block_trailer}
use tipcie.Fifo.{read_fifo}
use tipcie.Dma.{read_dma}
use tipcie.Block.{tip_get_current_block_level}

pub tip_fake_trigger_bank_on_error : ℤ → M ℤ
tip_fake_trigger_bank_on_error enable = do
  tiplock
  update λ g. record g { fake_trigger_bank = truthy enable }
  tipunlock
  pure ok

-- The index of the first block header, from index `i` on, with `left` words to look at.
pub find_header : ℕ → ℕ → Buffer → Option ℕ
find_header zero i buf = none
find_header (suc left) i buf =
    let rest = find_header left (suc i) buf in if is_block_header (buf i) then some i else rest

-- The index of the last block trailer among the first `n` words.
pub find_trailer : ℕ → Buffer → Option ℕ
find_trailer zero buf = none
find_trailer (suc n) buf =
    let rest = find_trailer n buf in if is_block_trailer (buf n) then some n else rest

module _ (dev : Device) where
  fetch : Bool → ℤ → Option Buffer → M (ℤ × Option Buffer)
  fetch use_dma nwrds none = pure (error, none)
  fetch true nwrds (some buf) = do
    update λ g. record g { tried_again = 0 }
    tiplock
    (count, buf') ← read_dma dev buf nwrds
    pure (count, some buf')
  fetch false nwrds (some buf) = do
    update λ g. record g { tried_again = 0 }
    tiplock
    (count, buf') ← read_fifo dev buf
    pure (count, some buf')

  -- `none` is a NULL pointer. How the block is read follows the way the library was set up, not
  -- the flag.
  pub tip_read_block : Option Buffer → ℤ → ℤ → M (ℤ × Option Buffer)
  unfolding fetch
  tip_read_block dest nwrds rflag = do
    g ← globals
    if not g.opened then pure (error, dest) else fetch g.use_dma nwrds dest

  -- An empty bank, with the current block level in its header. The level may be ERROR.
  pub tip_generate_trigger_bank : Buffer → M (ℤ × Buffer)
  tip_generate_trigger_bank buf = do
    bl ← tip_get_current_block_level dev
    pure (pos 2, store (store buf 0 1) 1 (bit_or 0xff10_2000 (to_u32 bl)))

  -- What each failure comes to.
  fall_back : ℤ → Option Buffer → M (ℤ × Option Buffer)
  fall_back result none = pure (result, none)
  fall_back result (some buf) = do
    g ← globals
    if g.fake_trigger_bank
        then (do (count, buf') ← tip_generate_trigger_bank buf; pure (count, some buf'))
        else pure (result, some buf)

  -- With a header at `h` and a trailer at `t`, whose count of words is checked: the trailer is
  -- dropped, and the length of the bank takes the place of the header.
  make_bank : ℕ → ℕ → Buffer → M (ℤ × Option Buffer)
  unfolding fall_back
  make_bank h t buf =
      let rval = (t + 2 ^ 32 - h) % 2 ^ 32 in
      if (rval + 1) % 2 ^ 32 == bit_and (buf t) 0x3f_ffff
      then pure (to_int rval, some (store buf h ((rval + 2 ^ 32 - 1) % 2 ^ 32)))
      else fall_back error (some buf)

  -- With the indices of the block header and of the trailer, where they were found.
  between : Option ℕ → Option ℕ → Buffer → M (ℤ × Option Buffer)
  unfolding make_bank fall_back
  between none trailer buf = fall_back error (some buf)
  between (some h) none buf = fall_back error (some buf)
  between (some h) (some t) buf = make_bank h t buf

  find_bank : ℤ → Option Buffer → M (ℤ × Option Buffer)
  unfolding between fall_back find_header find_trailer
  find_bank (negsuc n) dest = fall_back error dest
  find_bank (pos zero) dest = fall_back (pos 0) dest
  find_bank (pos (suc n)) none = fall_back error none
  find_bank (pos (suc n)) (some buf) =
      between (find_header (suc n) 0 buf) (find_trailer (suc n) buf) buf

  pub tip_read_trigger_block : Option Buffer → M (ℤ × Option Buffer)
  unfolding find_bank
  tip_read_trigger_block none = pure (error, none)
  tip_read_trigger_block (some buf) = do
    g ← globals
    (rval, read) ← tip_read_block (some buf) (pos (5 * g.block_level + 8)) (pos 0)
    find_bank rval read
