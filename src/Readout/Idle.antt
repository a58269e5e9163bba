-- ===== src/Readout/Idle.antt =====
-- Reading a block uses the mutex as it should, on every path and whatever the card answers.
use tipcie.Prelude.{
  ℕ, ◌+◌, ◌*◌, Bool, true, false, not, error, refl, zero, suc, ℤ, pos, negsuc, Option, none, some,
  arith,
}
use tipcie.Machine.{Device}
use tipcie.Machine.Lock.{KeepsIdle, if-KeepsIdle}
use tipcie.Format.{Buffer}
use tipcie.Fifo.Mutex.{read_fifo-Releases}
use tipcie.Dma.Mutex.{read_dma-Releases}
use tipcie.Block.Idle.{tip_get_current_block_level-KeepsIdle}
use tipcie.Readout.{
  find_header, find_trailer, tip_fake_trigger_bank_on_error, tip_read_block, fetch,
  tip_generate_trigger_bank, fall_back, make_bank, between, find_bank, tip_read_trigger_block,
}

pub tip_fake_trigger_bank_on_error-KeepsIdle :
    (enable : ℤ) → KeepsIdle (tip_fake_trigger_bank_on_error enable)
unfolding tip_fake_trigger_bank_on_error
tip_fake_trigger_bank_on_error-KeepsIdle enable w h = ground arith

module _ (dev : Device) where
  fetch-KeepsIdle :
      (dma : Bool) (nwrds : ℤ) (dest : Option Buffer) → KeepsIdle (fetch dev dma nwrds dest)
  unfolding fetch
  fetch-KeepsIdle true nwrds none w h = h
  fetch-KeepsIdle false nwrds none w h = h
  fetch-KeepsIdle true nwrds (some buf) w h =
      read_dma-Releases dev buf nwrds _ (record { taken = refl; clean = ground arith })
  fetch-KeepsIdle false nwrds (some buf) w h =
      read_fifo-Releases dev buf _ (record { taken = refl; clean = ground arith })

  pub tip_read_block-KeepsIdle :
      (dest : Option Buffer) (nwrds rflag : ℤ) → KeepsIdle (tip_read_block dev dest nwrds rflag)
  unfolding tip_read_block
  tip_read_block-KeepsIdle dest nwrds rflag w h =
      if-KeepsIdle (not w.lib.opened) _ _ (λ w h. h) (fetch-KeepsIdle w.lib.use_dma nwrds dest) w h

  pub tip_generate_trigger_bank-KeepsIdle :
      (buf : Buffer) → KeepsIdle (tip_generate_trigger_bank dev buf)
  unfolding tip_generate_trigger_bank
  tip_generate_trigger_bank-KeepsIdle buf = tip_get_current_block_level-KeepsIdle dev

  fall_back-KeepsIdle : (result : ℤ) (dest : Option Buffer) → KeepsIdle (fall_back dev result dest)
  unfolding fall_back
  fall_back-KeepsIdle result none w h = h
  fall_back-KeepsIdle result (some buf) w h =
      if-KeepsIdle w.lib.fake_trigger_bank _ _ (tip_generate_trigger_bank-KeepsIdle buf) (λ w h. h)
        w h

  make_bank-KeepsIdle : (i t : ℕ) (buf : Buffer) → KeepsIdle (make_bank dev i t buf)
  unfolding make_bank
  make_bank-KeepsIdle i t buf = if-KeepsIdle _ _ _ (λ w h. h) (fall_back-KeepsIdle error (some buf))

  between-KeepsIdle : (i t : Option ℕ) (buf : Buffer) → KeepsIdle (between dev i t buf)
  unfolding between
  between-KeepsIdle none t buf = fall_back-KeepsIdle error (some buf)
  between-KeepsIdle (some i) none buf = fall_back-KeepsIdle error (some buf)
  between-KeepsIdle (some i) (some t) buf = make_bank-KeepsIdle i t buf

  find_bank-KeepsIdle : (rval : ℤ) (dest : Option Buffer) → KeepsIdle (find_bank dev rval dest)
  unfolding find_bank
  find_bank-KeepsIdle (negsuc n) dest = fall_back-KeepsIdle error dest
  find_bank-KeepsIdle (pos zero) dest = fall_back-KeepsIdle (pos 0) dest
  find_bank-KeepsIdle (pos (suc n)) none = fall_back-KeepsIdle error none
  find_bank-KeepsIdle (pos (suc n)) (some buf) =
      between-KeepsIdle (find_header (suc n) 0 buf) (find_trailer (suc n) buf) buf

  pub tip_read_trigger_block-KeepsIdle :
      (dest : Option Buffer) → KeepsIdle (tip_read_trigger_block dev dest)
  unfolding tip_read_trigger_block
  tip_read_trigger_block-KeepsIdle none w h = h
  tip_read_trigger_block-KeepsIdle (some buf) w h =
      find_bank-KeepsIdle _ _ _
        (tip_read_block-KeepsIdle (some buf) (pos (5 * w.lib.block_level + 8)) (pos 0) w h)
