-- ===== src/Format/Reads.antt =====
-- Lists found at consecutive indices of an array or of a stream, and written to them.
use tipcie.Prelude.{ℕ, suc, ◌+◌, ◌<◌, ◌≤◌, List, [], ◌∷◌, ◌++◌, ◌≡◌, refl, length, arith}
use native.Mathlib.Nat.{add-zero}
use tipcie.Format.{Buffer, Dest, put, store}

-- From index `c` on, `f` reads `xs`.
abbrev pub Reads : (ℕ → ℕ) → ℕ → List ℕ → Type 0
Reads f c [] = Unit
Reads f c (x ∷ xs) = (f c ≡ x) × Reads f (suc c) xs

pub Reads-append :
    (f : ℕ → ℕ) (c : ℕ) (xs ys : List ℕ)
    → Reads f c (xs ++ ys)
    → Reads f c xs × Reads f (c + length xs) ys
Reads-append f c [] ys h = (tt, rw add-zero h)
Reads-append f c (x ∷ xs) ys h =
    let r = Reads-append f (suc c) xs ys h.1 in
    let e : c + suc (length xs) ≡ suc c + length xs = omega arith in ((h.0, r.0), rw e r.1)

unfoldable pub put_all : List ℕ → Dest → Dest
put_all [] d = d
put_all (x ∷ xs) d = put_all xs (put d x)

pub put_all-append : (xs ys : List ℕ) (d : Dest) → put_all (xs ++ ys) d ≡ put_all ys (put_all xs d)
unfolding put_all
put_all-append [] ys d = refl
put_all-append (x ∷ xs) ys d = put_all-append xs ys (put d x)

pub put_all-count : (xs : List ℕ) (d : Dest) → (put_all xs d).d_cnt ≡ d.d_cnt + length xs
unfolding put_all
put_all-count [] d = omega arith
put_all-count (x ∷ xs) d = omega (arith, put_all-count xs (put d x))

-- What was written before stays.
pub put_all-below :
    (xs : List ℕ) (d : Dest) (j : ℕ) → j < d.d_cnt → (put_all xs d).words j ≡ d.words j
unfolding put_all
put_all-below [] d j h = refl
put_all-below (x ∷ xs) d j h = ground (arith, put_all-below xs (put d x) j)

-- Nothing is written behind the last word.
pub put_all-above :
    (xs : List ℕ) (d : Dest) (j : ℕ) → d.d_cnt + length xs ≤ j → (put_all xs d).words j ≡ d.words j
unfolding put_all
put_all-above [] d j h = refl
put_all-above (x ∷ xs) d j h = ground (arith, put_all-above xs (put d x) j)

-- The words stand where they were put.
pub put_all-Reads : (xs : List ℕ) (d : Dest) → Reads (put_all xs d).words d.d_cnt xs
unfolding put_all
put_all-Reads [] d = tt
put_all-Reads (x ∷ xs) d =
    (ground (arith, put_all-below xs (put d x) d.d_cnt), put_all-Reads xs (put d x))

-- A write in front of them leaves them.
pub Reads-store :
    (f : Buffer) (c i v : ℕ) (xs : List ℕ) → i < c → Reads f c xs → Reads (store f i v) c xs
Reads-store f c i v [] h r = tt
Reads-store f c i v (x ∷ xs) h r = (ground arith, Reads-store f (suc c) i v xs (omega arith) r.1)
