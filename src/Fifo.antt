-- ===== src/Fifo.antt =====
-- tipReadBlock of TIpcieLib.c, the branch "Programmed IO": a block read word by word from the
-- card's FIFO.
pub mod Mutex
pub mod RoundTrip
pub mod Stream
use tipcie.Prelude.{
  ℕ, zero, suc, ◌+◌, ◌/◌, ◌%◌, ◌^◌, Bool, true, false, bit_and, ℤ, pos, error, ◌==◌, if◌then◌else◌,
}
use tipcie.Machine.{Device, M, pure, ◌>>=◌, ◌>>◌, update, tipunlock, usleep, tip_read}
use tipcie.Machine.Reg
use tipcie.Machine.Macro
use tipcie.Format.{
  is_block_header, is_block_trailer, is_bank_header, is_event_header, Buffer, Dest, put,
}

module _ (dev : Device) where
  -- val = tipRead(&TIPp->fifo); data[dCnt++] = val;
  pub take_word : Dest → M (ℕ × Dest)
  take_word d = do val ← tip_read dev Reg.fifo; pure (val, put d val)

  -- The words of an event behind its header.
  pub read_words : ℕ → Dest → M Dest
  read_words zero d = pure d
  read_words (suc trigwords) d = do (val, d') ← take_word d; read_words trigwords d'

  -- The loop over the events of a block. A word that is no event header is kept, and the next one
  -- is tried; `left` is 20 - tipTriedAgain, so that tipTriedAgain passes 20 when none is left.
  -- `false` stands for the return on an invalid event header.
  pub read_events : ℕ → ℕ → Dest → M (Bool × Dest)
  read_events zero left d = pure (true, d)
  read_events (suc events) zero d = do
    (val, d') ← take_word d
    if is_event_header val
        then (do d'' ← read_words (bit_and val 0xffff) d'; read_events events zero d'')
        else (do
          update λ g. record g { tried_again = g.tried_again + 1 }
          usleep 1
          pure (false, d'))
  read_events (suc events) (suc left) d = do
    (val, d') ← take_word d
    if is_event_header val
        then (do d'' ← read_words (bit_and val 0xffff) d'; read_events events (suc left) d'')
        else (do
          update λ g. record g { tried_again = g.tried_again + 1 }
          usleep 1
          read_events (suc events) left d')

  -- The trailer, and a filler word behind it that makes the count of words even.
  pub read_trailer : Dest → M (ℤ × Buffer)
  read_trailer d = do
    (val, d') ← take_word d
    if is_block_trailer val
        then (do
          if d'.d_cnt % 2 == 0 then pure 0 else tip_read dev Reg.fifo
          tipunlock
          pure (pos d'.d_cnt, d'.words))
        else (do tipunlock; pure (error, d'.words))

  -- The mutex is held at the start, and given back on every path.
  pub read_fifo : Buffer → M (ℤ × Buffer)
  unfolding read_trailer
  read_fifo buf = do
    (val, d) ← take_word (record { d_cnt = 0; words = buf })
    if is_block_header val
        then (do
          (val', d') ← take_word d
          if is_bank_header val'
              then (do
                (fine, d'') ← read_events (bit_and val' Macro.data_blklevel_mask) 20 d'
                if fine then read_trailer d'' else (do tipunlock; pure (error, d''.words)))
              else (do tipunlock; pure (error, d'.words)))
        else (do tipunlock; pure (pos d.d_cnt, d.words))
