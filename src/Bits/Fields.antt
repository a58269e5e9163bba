-- ===== src/Bits/Fields.antt =====
-- Fields of words: `&` with a mask of `k` ones shifted by `s`, and with its complement.
use native.Mathlib.Nat.{pow-suc, one-le-pow}
use tipcie.Prelude.{ℕ, zero, suc, ◌+◌, ◌-◌, ◌*◌, ◌/◌, ◌%◌, ◌^◌, ◌<◌, bit_and, bit_or, ◌≡◌, arith}
use tipcie.Bits.Step.{bit_and_step, and-zero, and-le, and_comm, or-and}

-- A shift by one more place is a shift of the double.
shift_suc : (k x : ℕ) → x * 2 ^ suc k ≡ 2 * (x * 2 ^ k)
shift_suc k x = rw (pow-suc 2 k) (omega arith)

-- `&` acts on the digits above position `k` and below it on their own.
pub and-split :
    (k q r c d : ℕ)
    → r < 2 ^ k
    → d < 2 ^ k
    → bit_and (q * 2 ^ k + r) (c * 2 ^ k + d) ≡ bit_and q c * 2 ^ k + bit_and r d
and-split zero q r c d hr hd =
    let er : r ≡ 0 = omega arith in
    let ed : d ≡ 0 = omega arith in
    let eq : q * 1 + 0 ≡ q = omega arith in
    let ec : c * 1 + 0 ≡ c = omega arith in rw (er, ed, eq, ec) (omega arith)
and-split (suc k) q r c d hr hd = ground (
  arith,
  bit_and_step (q * 2 ^ suc k + r) (c * 2 ^ suc k + d),
  bit_and_step r d,
  shift_suc k q,
  shift_suc k c,
  shift_suc k (bit_and q c),
  pow-suc 2 k,
  and-split k q (r / 2) c (d / 2) (omega (arith, pow-suc 2 k)) (omega (arith, pow-suc 2 k)),
)

ones-and : (k r : ℕ) → r < 2 ^ k → bit_and r (2 ^ k - 1) ≡ r
ones-and zero r h = let e : r ≡ 0 = omega arith in rw e
ones-and (suc k) r h = ground (
  arith,
  bit_and_step r (2 ^ suc k - 1),
  pow-suc 2 k,
  one-le-pow k 2,
  ones-and k (r / 2) (omega (arith, pow-suc 2 k)),
)

pub two-pow-pos : (k : ℕ) → 0 < 2 ^ k
two-pow-pos k = omega (arith, one-le-pow k 2)

module _ (k a : ℕ) where
  pub mod-two-pow-lt : a % 2 ^ k < 2 ^ k
  mod-two-pow-lt = omega (arith, two-pow-pos k)

  pub split-two-pow : a / 2 ^ k * 2 ^ k + a % 2 ^ k ≡ a
  split-two-pow = omega (arith, two-pow-pos k)

-- The same, for words that are not written as sums.
pub and-halves :
    (k a m : ℕ)
    → bit_and a m ≡ bit_and (a / 2 ^ k) (m / 2 ^ k) * 2 ^ k + bit_and (a % 2 ^ k) (m % 2 ^ k)
and-halves k a m = ground (
  arith,
  split-two-pow k a,
  split-two-pow k m,
  and-split k (a / 2 ^ k) (a % 2 ^ k) (m / 2 ^ k) (m % 2 ^ k) (mod-two-pow-lt k a)
      (mod-two-pow-lt k m),
)

-- A mask of `k` low ones takes the remainder.
pub and-ones : (k a : ℕ) → bit_and a (2 ^ k - 1) ≡ a % 2 ^ k
and-ones k a = ground (
  arith,
  two-pow-pos k,
  split-two-pow k a,
  and-split k (a / 2 ^ k) (a % 2 ^ k) 0 (2 ^ k - 1) (mod-two-pow-lt k a)
      (omega (arith, two-pow-pos k)),
  and-zero (a / 2 ^ k),
  ones-and k (a % 2 ^ k) (mod-two-pow-lt k a),
)

-- The field of width `k` at shift `s`.
abbrev pub field : ℕ → ℕ → ℕ → ℕ
field s k a = a / 2 ^ s % 2 ^ k

pub and-field : (s k a : ℕ) → bit_and a ((2 ^ k - 1) * 2 ^ s) ≡ field s k a * 2 ^ s
and-field s k a = ground (
  arith,
  split-two-pow s a,
  and-split s (a / 2 ^ s) (a % 2 ^ s) (2 ^ k - 1) 0 (mod-two-pow-lt s a) (two-pow-pos s),
  and-zero (a % 2 ^ s),
  and-ones k (a / 2 ^ s),
)

below_complement : (k a m : ℕ) → a < 2 ^ k → m < 2 ^ k → bit_and a m + bit_and a (2 ^ k - 1 - m) ≡ a
below_complement zero a m h hm = omega (arith, and-le a m, and-le a (0 - m))
below_complement (suc k) a m h hm = ground (
  arith,
  pow-suc 2 k,
  bit_and_step a m,
  bit_and_step a (2 ^ suc k - 1 - m),
  below_complement k (a / 2) (m / 2) (omega (arith, pow-suc 2 k)) (omega (arith, pow-suc 2 k)),
)

-- `~m` of a 32-bit word, and what `& ~m` leaves.
abbrev pub not32 : ℕ → ℕ
not32 m = 2 ^ 32 - 1 - m

pub and-not32 : (a m : ℕ) → a < 2 ^ 32 → m < 2 ^ 32 → bit_and a m + bit_and a (not32 m) ≡ a
and-not32 a m h hm = below_complement 32 a m h hm

-- The mask of the field of width `k` at shift `s`.
abbrev pub mask : ℕ → ℕ → ℕ
mask s k = (2 ^ k - 1) * 2 ^ s

-- `a | mask` sets the field and keeps the rest.
pub or-mask : (s k a : ℕ) → bit_or a (mask s k) + field s k a * 2 ^ s ≡ a + mask s k
or-mask s k a = ground (arith, or-and a (mask s k), and-field s k a)

-- `a & ~mask` clears the field and keeps the rest.
pub and-not_mask :
    (s k a : ℕ)
    → a < 2 ^ 32
    → mask s k < 2 ^ 32
    → bit_and a (not32 (mask s k)) + field s k a * 2 ^ s ≡ a
and-not_mask s k a h hm = ground (arith, and-not32 a (mask s k) h hm, and-field s k a)

and-gap : (s k q r v : ℕ) → r < 2 ^ s → v < 2 ^ k → bit_and (q * 2 ^ k * 2 ^ s + r) (v * 2 ^ s) ≡ 0
and-gap s k q r v hr hv = ground (
  arith,
  two-pow-pos k,
  two-pow-pos s,
  and-split s (q * 2 ^ k) r v 0 hr (two-pow-pos s),
  and-zero r,
  and-zero q,
  and-split k q 0 0 v (two-pow-pos k) hv,
  and_comm 0 v,
  and-zero v,
)

-- `|` with a value that falls into a gap is a sum.
pub or-gap :
    (s k q r v : ℕ)
    → r < 2 ^ s
    → v < 2 ^ k
    → bit_or (q * 2 ^ k * 2 ^ s + r) (v * 2 ^ s) ≡ q * 2 ^ k * 2 ^ s + r + v * 2 ^ s
or-gap s k q r v hr hv =
    ground (arith, and-gap s k q r v hr hv, or-and (q * 2 ^ k * 2 ^ s + r) (v * 2 ^ s))

-- Below position `k` nothing is set in the left word.
pub or-low : (k q v : ℕ) → v < 2 ^ k → bit_or (q * 2 ^ k) v ≡ q * 2 ^ k + v
or-low k q v hv = ground (
  arith,
  or-and (q * 2 ^ k) v,
  two-pow-pos k,
  and-split k q 0 0 v (two-pow-pos k) hv,
  and-zero q,
  and_comm 0 v,
  and-zero v,
)
