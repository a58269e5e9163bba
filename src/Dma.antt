-- ===== src/Dma.antt =====
-- tipReadBlock of TIpcieLib.c, the branch "Block transfer": a block that the card has put into the
-- DMA memory, a page of 0x1000 bytes for each.
pub mod Mutex
pub mod Room
use tipcie.Prelude.{
  ℕ, zero, suc, ◌+◌, ◌*◌, ◌/◌, ◌^◌, bit_and, bit_or, Option, none, some, ℤ, pos, negsuc, error, ltb,
  leb, ◌==◌, if◌then◌else◌,
}
use tipcie.Machine.{Device, M, pure, ◌>>=◌, ◌>>◌, globals, update, tipunlock, usleep, dma_load}
use tipcie.Machine.Macro
use tipcie.Format.{Buffer, store}

-- x + 1 and x - 1
increment : ℤ → ℤ
increment (pos n) = pos (suc n)
increment (negsuc zero) = pos 0
increment (negsuc (suc n)) = negsuc n

decrement : ℤ → ℤ
decrement (pos zero) = negsuc 0
decrement (pos (suc n)) = pos n
decrement (negsuc n) = negsuc (suc n)

-- The next page of 0x1000 bytes, and `bump` with it. The offset is unsigned: one below 0 counts as
-- one past the end, which leads back to the first page.
next_page : ℤ → ℕ × ℤ
next_page (pos n) = if leb 0x10_0000 (0x1000 * n) then (0, pos 0) else (0x400 * n, pos n)
next_page (negsuc n) = (0, pos 0)

-- The words to copy: what the first word says, or what the caller has room for.
clip : ℕ → ℤ → ℕ
clip w_cnt (pos nwrds) = if ltb w_cnt nwrds then w_cnt else nwrds
clip w_cnt (negsuc _) = 0

-- TIPpd, which starts at the beginning of the DMA memory.
abbrev position : Option ℕ → ℕ
position none = 0
position (some p) = p

module _ (dev : Device) where
  -- The wait for a word that is not 0, with 1000 - counter rounds left. `none` gives up, also if
  -- the last round has found one.
  wait_word : ℕ → ℕ → ℕ → M (Option ℕ)
  wait_word zero at val = pure none
  wait_word (suc left) at val =
      if val == 0
      then (do val' ← dma_load dev at; usleep 10; wait_word left at val')
      else pure (some val)

  -- "Dump the memory"
  dump : ℕ → ℕ → M (Unit {0})
  dump zero at = pure tt
  dump (suc left) at = do dma_load dev at; dump left (at + 1)

  -- `left` is nwrds - ii. A trailer with its own index ends the loop, and is not counted.
  copy_words : ℕ → ℕ → ℕ → Buffer → M (ℕ × Buffer)
  copy_words zero ii at buf = pure (ii, buf)
  copy_words (suc left) ii at buf = do
    val ← dma_load dev at
    if val == bit_or (bit_or Macro.data_type_define_mask Macro.block_trailer_word_type) ii
        then pure (ii, store buf ii val)
        else copy_words left (suc ii) (at + 1) (store buf ii val)

  give_up : ℕ → Buffer → M (ℤ × Buffer)
  unfolding decrement
  give_up at buf = do
    dump 0x400 at
    update λ g. record g { dma_pos = some (at + 0x400); mem_count = decrement g.mem_count }
    tipunlock
    pure (error, buf)

  -- The pointer goes to the next page, or back to the start if nothing came.
  turn_page : ℕ → M (Unit {0})
  unfolding next_page increment decrement
  turn_page d_cnt = update λ g.
      let page = next_page (increment g.bump) in
      if d_cnt == 0
      then record g { dma_pos = some 0; bump = decrement page.1 }
      else record g { dma_pos = some page.0; bump = page.1; mem_count = decrement g.mem_count }

  transfer : ℕ → ℕ → ℤ → Buffer → M (ℤ × Buffer)
  unfolding turn_page
  transfer at val nwrds buf = do
    let w_cnt = bit_and (val / 2 ^ 16) 0xfff * 2
    dma_load dev at
    (ii, buf') ← copy_words (clip w_cnt nwrds) 0 (at + 1) buf
    turn_page ii
    tipunlock
    pure (pos ii, buf')

  settle : ℕ → ℤ → Buffer → Option ℕ → M (ℤ × Buffer)
  unfolding give_up transfer
  settle at nwrds buf none = give_up at buf
  settle at nwrds buf (some val) = transfer at val nwrds buf

  -- The mutex is held at the start, and given back on every path.
  pub read_dma : Buffer → ℤ → M (ℤ × Buffer)
  unfolding settle
  read_dma buf nwrds = do
    g ← globals
    let at = position g.dma_pos
    update λ g. record g { dma_pos = some at }
    first ← dma_load dev at
    found ← wait_word 1000 at first
    settle at nwrds buf found
