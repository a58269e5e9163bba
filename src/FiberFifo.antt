-- ===== src/FiberFifo.antt =====
-- TIpcieLib.c: the words that wait in the FIFO of a fiber.
pub mod Bound
use tipcie.Prelude.{
  ℕ, zero, suc, ◌+◌, ◌*◌, ◌^◌, Bool, not, ◌&&◌, bit_and, Option, none, some, ℤ, pos, error, above,
  equals, to_u32, ◌==◌, if◌then◌else◌,
}
use tipcie.Machine.{Device, M, pure, ◌>>=◌, ◌>>◌, globals, tiplock, tipunlock, tip_read}
use tipcie.Machine.Reg

-- Whether a word says that there is no more.
is_last : ℕ → Bool
is_last word = not (bit_and word (2 ^ 31) == 0)

-- The array with a word stored.
put_word : (ℕ → ℕ) → ℕ → ℕ → ℕ → ℕ
put_word buf i x = λ j. if j == i then x else buf j

-- The register of fiber 1, otherwise that of fiber 5.
fifo_reg : ℤ → ℕ
fifo_reg fiber = if equals fiber 1 then Reg.trig_table + 4 * 12 else Reg.trig_table + 4 * 13

module _ (dev : Device) where
  -- The loop, where `left` words have room yet and `nwords` are stored.
  fifo_loop : ℤ → (left nwords : ℕ) → (ℕ → ℕ) → M (ℕ × (ℕ → ℕ))
  unfolding is_last put_word fifo_reg
  fifo_loop fiber zero nwords buf = pure (nwords, buf)
  fifo_loop fiber (suc left) nwords buf = do
    word ← tip_read dev (fifo_reg fiber)
    let rest = fifo_loop fiber left (nwords + 1) (put_word buf nwords word)
    if is_last word then pure (nwords, buf) else rest

  -- `none` as an argument is the pointer NULL; `none` as a result is the access to the card through
  -- the pointer `TIPp` while it is NULL, which the function does not check. What comes back is the
  -- result and the array.
  pub tip_read_fiber_fifo : ℤ → Option (ℕ → ℕ) → ℤ → M (Option (ℤ × Option (ℕ → ℕ)))
  unfolding fifo_loop
  tip_read_fiber_fifo fiber none maxwords = pure (some (error, none))
  tip_read_fiber_fifo fiber (some words) maxwords = do
    g ← globals
    if not (equals fiber 1) && not (equals fiber 5)
        then pure (some (error, some words))
        else if not (above maxwords 0)
        then (do tiplock; tipunlock; pure (some (pos 0, some words)))
        else if not g.opened
        then tiplock >> pure none
        else do
          tiplock
          (nwords, buf) ← fifo_loop fiber (to_u32 maxwords) 0 words
          tipunlock
          pure (some (pos nwords, some buf))
