-- ===== src/Driver/Chain.antt =====
-- A linked list of handles in the heap, held against the list of their addresses.
use tipcie.Prelude.{
  ℕ, ◌==◌, Bool, true, false, Option, some, List, [], ◌∷◌, if◌then◌else◌, ◌≡◌, ◌≢◌, inl, inr,
  Bool-cases, arith,
}
use tipcie.Driver.{Handle, dma_magic, put}

-- An address is not among those of a list, or it is.
abbrev pub IsOut : ℕ → List ℕ → Type 0
IsOut a [] = Unit
IsOut a (x ∷ xs) = (a ≢ x) × IsOut a xs

abbrev pub has : List ℕ → ℕ → Bool
has [] a = false
has (x ∷ xs) a = if x == a then true else has xs a

-- The list without an address.
abbrev pub without : ℕ → List ℕ → List ℕ
without a [] = []
without a (x ∷ xs) = if x == a then xs else x ∷ without a xs

abbrev pub Heap : Type 0
Heap = ℕ → Option Handle

-- From the pointer `p` on, the handles are those at the addresses of the list, each once, allocated
-- and valid, and the last one's `next` is NULL.
unfoldable pub IsChain : Heap → ℕ → List ℕ → Type 0
IsChain heap p [] = p ≡ 0
IsChain heap p (x ∷ xs) =
    (p ≡ x)
    × (x ≢ 0)
    × IsOut x xs
    × ((h : Handle) × (heap x ≡ some h) × (h.magic ≡ dma_magic) × IsChain heap h.next xs)

pub IsOut-apart : (a x : ℕ) (xs : List ℕ) → IsOut a xs → has xs x ≡ true → a ≢ x
IsOut-apart a x [] out found = absurd (ground arith)
IsOut-apart a x (y ∷ ys) out found = elim (Bool-cases (y == x)) [
  | inl here ↦ λ e. out.0 (ground arith)
  | inr other ↦ IsOut-apart a x ys out.1 (ground (arith, found))
]

pub IsOut-without : (a x : ℕ) (xs : List ℕ) → IsOut a xs → IsOut a (without x xs)
IsOut-without a x [] out = out
IsOut-without a x (y ∷ ys) out = elim (Bool-cases (y == x)) [
  | inl here ↦ rw here out.1
  | inr other ↦ rw other (out.0, IsOut-without a x ys out.1)
]

-- What lies outside the list may change.
pub IsChain-put :
    (heap : Heap) (a : ℕ) (v : Option Handle) (p : ℕ) (xs : List ℕ)
    → IsOut a xs
    → IsChain heap p xs
    → IsChain (put heap a v) p xs
unfolding IsChain
IsChain-put heap a v p [] out chain = chain
IsChain-put heap a v p (x ∷ xs) out (at_x, real, once, (h, e, valid, rest)) =
    let apart : x == a ≡ false = ground (arith, out.0) in
    (at_x, real, once, (h, rw apart e, valid, IsChain-put heap a v h.next xs out.1 rest))
