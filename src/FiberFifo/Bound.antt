-- ===== src/FiberFifo/Bound.antt =====
-- The words of a fiber's FIFO fit into the array.
use tipcie.Prelude.{
  ℕ, zero, suc, ◌+◌, ◌%◌, ◌^◌, ◌<◌, ◌≤◌, Bool, true, false, not, ◌||◌, ◌&&◌, Option, none, some, ℤ,
  pos, negsuc, equals, ltb, ◌==◌, ◌≡◌, refl, arith, Bool-cases, inl, inr,
}
use tipcie.Bits.Fields.{and-field}
use tipcie.Machine.{Device, World, tiplock, tip_read}
use tipcie.FiberFifo.{tip_read_fiber_fifo, fifo_loop, is_last, put_word, fifo_reg}

is_last-small : (x : ℕ) → x < 2 ^ 32 → is_last x ≡ false → x < 2 ^ 31
unfolding is_last
is_last-small x h e = ground (arith, and-field 31 1 x)

-- `n` words were stored from the start of the array, none with bit 31, and nothing behind them.
pub record HasRead (n : ℕ) (before after : ℕ → ℕ) : Type 0 where
  pub words : (i : ℕ) → i < n → after i < 2 ^ 31
  pub behind : (i : ℕ) → n ≤ i → after i ≡ before i

module _ (dev : Device) (fiber : ℤ) (before : ℕ → ℕ) where
  put_word-HasRead :
      (n x : ℕ) (buf : ℕ → ℕ)
      → x < 2 ^ 31
      → HasRead n before buf
      → HasRead (n + 1) before (put_word buf n x)
  unfolding put_word
  put_word-HasRead n x buf h so_far = record {
    words = λ i lt. elim (Bool-cases (i == n)) [
      | inl here ↦ rw here h
      | inr apart ↦ rw apart (so_far.words i (ground arith))
    ];
    behind = λ i le.
        let apart : (i == n) ≡ false = ground arith in rw apart (so_far.behind i (omega arith));
  }

  fifo_loop-HasRead :
      (left n : ℕ) (buf : ℕ → ℕ) (w : World)
      → HasRead n before buf
      → let r = fifo_loop dev fiber left n buf w in (r.0.0 ≤ n + left) × HasRead r.0.0 before r.0.1
  unfolding fifo_loop
  fifo_loop-HasRead zero n buf w so_far = (omega arith, so_far)
  fifo_loop-HasRead (suc left) n buf w so_far =
      let word = tip_read dev (fifo_reg fiber) w in
      elim (Bool-cases (is_last word.0)) [
        | inl last ↦ rw last (omega arith, so_far)
        | inr more ↦
            let stored_word =
              put_word-HasRead n word.0 buf (is_last-small word.0 (omega arith) more) so_far in
            let rest = fifo_loop-HasRead left (n + 1) (put_word buf n word.0) word.1 stored_word in
            rw more (omega (arith, rest.0), rest.1)
      ]

-- What a call with an array may return: for a fiber that does not exist, an error with the array as
-- it was; for one that does, the number of words that it stored from the start of the array, at most
-- `maxwords` and none with bit 31 set.
pub IsFifoResult :
    (exists : Bool) (maxwords : ℕ) (before : ℕ → ℕ) → Option (ℤ × Option (ℕ → ℕ)) → Type 0
IsFifoResult exists maxwords before none = ⊥
IsFifoResult exists maxwords before (some (x, none)) = ⊥
IsFifoResult exists maxwords before (some (pos n, some after)) =
    (exists ≡ true) × (n ≤ maxwords) × HasRead n before after
IsFifoResult exists maxwords before (some (negsuc n, some after)) =
    (exists ≡ false) × (n ≡ 0) × (after ≡ before)

module _ (dev : Device) where
  -- On an open library, for an array of at least `maxwords` words, tip_read_fiber_fifo writes within
  -- it, whatever the card answers: for fibers 1 and 5 it stores at most `maxwords` words, each below
  -- 2 ^ 31, from the start of the array, returns their number, and leaves what is behind them; for
  -- any other fiber it returns ERROR and leaves the array.
  pub tip_read_fiber_fifo-IsFifoResult :
      (fiber : ℤ) (before : ℕ → ℕ) (maxwords : ℕ) (w : World)
      → w.lib.opened ≡ true
      → maxwords < 2 ^ 31
      → IsFifoResult
          (equals fiber 1 || equals fiber 5)
          maxwords
          before
          (tip_read_fiber_fifo dev fiber (some before) (pos maxwords) w).0
  unfolding tip_read_fiber_fifo IsFifoResult
  tip_read_fiber_fifo-IsFifoResult fiber before maxwords w opened fits =
      let start : HasRead 0 before before = record {
        words = λ i lt. absurd (omega arith);
        behind = λ i le. refl;
      } in
      elim (Bool-cases (equals fiber 1 || equals fiber 5)) [
        | inr wrong ↦
            let refused : (not (equals fiber 1) && not (equals fiber 5)) ≡ true = ground arith in
            rw (refused, wrong) (refl, refl, refl)
        | inl right ↦
            let allowed : (not (equals fiber 1) && not (equals fiber 5)) ≡ false = ground arith in
            elim (Bool-cases (ltb 0 maxwords)) [
              | inr nothing ↦ rw (allowed, right, nothing) (refl, omega arith, start)
              | inl room ↦
                  let whole : maxwords % 2 ^ 32 ≡ maxwords = omega arith in
                  let on : not w.lib.opened ≡ false = ground arith in
                  let read_words =
                    fifo_loop-HasRead dev fiber before maxwords 0 before (tiplock w).1 start in
                  rw (allowed, right, room, on, whole)
                    (refl, omega (arith, read_words.0), read_words.1)
            ]
      ]
