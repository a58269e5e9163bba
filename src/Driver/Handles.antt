-- ===== src/Driver/Handles.antt =====
-- A handle searched for in the list of DMA buffers and taken out of it.
use tipcie.Prelude.{
  ℕ, zero, suc, ◌<◌, ◌==◌, Bool, true, false, Option, none, some, pos, List, [], ◌∷◌, length, ◌≡◌,
  ◌≢◌, ◌⊎◌, inl, inr, refl, sym, ap, subst, ◌∙◌, Bool-cases, arith,
}
use tipcie.Driver.{Handle, Kernel, dma_magic, put, search_handle, unlink, dma_handle_list_remove}
use tipcie.Driver.Chain.{
  IsOut, has, without, Heap, IsChain, IsOut-apart, IsOut-without, IsChain-put,
}

-- The list's heap once the handle `target` behind the handle `p` is taken out and freed.
abbrev IsUnlinked : Heap → (p target cur : ℕ) → List ℕ → Type 0
IsUnlinked heap p target cur xs =
    (hp : Handle) × (heap p ≡ some hp)
    × ((ht : Handle) × (heap target ≡ some ht)
        × IsChain (put (put heap p (some (record hp { next = ht.next }))) target none) cur
            (without target xs))

-- The search found the handle first, or behind another handle of the list.
Found : Heap → (target prev cur : ℕ) → List ℕ → Option (Bool × ℕ × ℕ) → Type 0
Found heap target prev cur xs r =
    ((cur ≡ target) × (r ≡ some (true, prev, target)))
    ⊎ ((p : ℕ) × (has xs p ≡ true)
        × (p ≢ target)
        × (r ≡ some (true, p, target))
        × IsUnlinked heap p target cur xs)

-- The first handle stays in front of a list from which the next one goes.
IsUnlinked-next :
    (heap : Heap) (target x : ℕ) (h : Handle) (xs : List ℕ)
    → heap x ≡ some h
    → h.magic ≡ dma_magic
    → x ≢ 0
    → IsOut x xs
    → x ≢ target
    → IsChain heap h.next xs
    → h.next ≡ target
    → has xs target ≡ true
    → IsUnlinked heap x target x (x ∷ xs)
unfolding IsChain
IsUnlinked-next heap target x h [] e valid real out apart chain here found = absurd (ground arith)
IsUnlinked-next heap target x h (y ∷ zs) e valid real out apart
      (at_y, y_real, y_once, (ht, et, y_valid, rest)) here found =
    let same : y ≡ target = ground arith in
    let is_target : y == y ≡ true = ground arith in
    let not_target : x == y ≡ false = ground (arith, out.0) in
    let self : x == x ≡ true = ground arith in
    let moved : Handle = record h { next = ht.next } in
    let y_first = IsChain-put heap x (some moved) ht.next zs out.1 rest in
    let both = IsChain-put (put heap x (some moved)) y none ht.next zs y_once y_first in
    let chain : IsChain (put (put heap x (some moved)) y none) x (without y (x ∷ y ∷ zs)) =
      rw (not_target, is_target)
        (refl, real, out.1, (moved, rw (not_target, self) refl, valid, both)) in
    subst (λ (t : ℕ). IsUnlinked heap x t x (x ∷ y ∷ zs)) same (h, e, (ht, et, chain))

IsUnlinked-later :
    (heap : Heap) (p target x : ℕ) (h : Handle) (xs : List ℕ)
    → heap x ≡ some h
    → h.magic ≡ dma_magic
    → x ≢ 0
    → IsOut x xs
    → x ≢ target
    → has xs p ≡ true
    → IsUnlinked heap p target h.next xs
    → IsUnlinked heap p target x (x ∷ xs)
unfolding IsChain
IsUnlinked-later heap p target x h xs e valid real out apart p_in (hp, ep, (ht, et, chain)) =
    let not_target : x == target ≡ false = ground arith in
    let not_p : x == p ≡ false = ground (arith, IsOut-apart x p xs out p_in) in
    (
      hp,
      ep,
      (
        ht,
        et,
        rw not_target (
          refl,
          real,
          IsOut-without x target xs out,
          (h, rw (not_target, not_p) e, valid, chain),
        ),
      ),
    )

search-Found :
    (heap : Heap) (target fuel prev cur : ℕ) (xs : List ℕ)
    → IsChain heap cur xs
    → has xs target ≡ true
    → length xs < fuel
    → Found heap target prev cur xs (search_handle fuel heap target prev cur)
unfolding IsChain Found search_handle
search-Found heap target fuel prev cur [] chain found enough = absurd (ground arith)
search-Found heap target zero prev cur (x ∷ xs) chain found enough = absurd (omega arith)
search-Found heap target (suc fuel) prev cur (x ∷ xs) (at_x, real, once, (h, e, valid, rest)) found
      enough =
    let real_x : x == 0 ≡ false = ground (arith, real) in
    let self : x == x ≡ true = ground arith in
    subst
      (λ (c : ℕ). Found heap target prev c (x ∷ xs) (search_handle (suc fuel) heap target prev c))
      (sym at_x)
      (elim (Bool-cases (x == target)) [
        | inl here ↦
            let same : x ≡ target = ground arith in
            inl (same, rw (real_x, here) (ap (λ (y : ℕ). some (true, prev, y)) same))
        | inr apart ↦
            let further : has xs target ≡ true = ground (arith, found) in
            let not_x : x ≢ target = ground arith in
            elim (search-Found heap target fuel x h.next xs rest further (omega arith)) [
              | inl (at_target, r) ↦ inr (
                x,
                rw self refl,
                not_x,
                rw (real_x, apart, e) r,
                IsUnlinked-next heap target x h xs e valid real once not_x rest at_target further,
              )
              | inr (p, p_in, not_target, r, unlinked) ↦
                  let p_later : has (x ∷ xs) p ≡ true = ground (arith, p_in) in
                  inr (
                    p,
                    p_later,
                    not_target,
                    rw (real_x, apart, e) r,
                    IsUnlinked-later heap p target x h xs e valid real once not_x p_in unlinked,
                  )
            ]
      ])

pub unlink-first :
    (k : Kernel) (target : ℕ) (h : Handle)
    → k.heap target ≡ some h
    → unlink k target target
      ≡ some (pos 0, record k { heap = put k.heap target none; dma_handle_list = h.next })
unfolding unlink
unlink-first k target h e =
    let same : target == target ≡ true = ground arith in rw (unlink, e, same) refl

unlink-later :
    (k : Kernel) (p target : ℕ) (hp ht : Handle)
    → k.heap target ≡ some ht
    → k.heap p ≡ some hp
    → p == target ≡ false
    → unlink k p target
      ≡ some (
        pos 0,
        record k { heap = put (put k.heap p (some (record hp { next = ht.next }))) target none },
      )
unfolding unlink
unlink-later k p target hp ht et ep apart = rw (unlink, et, apart, ep) refl

-- For a list of handles and a handle in it, and with more fuel than the list is long,
-- dma_handle_list_remove returns 0, and the list is then the same without this handle, which is no
-- longer allocated.
pub dma_handle_list_remove-IsChain :
    (k : Kernel) (xs : List ℕ) (fuel target : ℕ)
    → IsChain k.heap k.dma_handle_list xs
    → has xs target ≡ true
    → length xs < fuel
    → (after : Kernel) × (dma_handle_list_remove fuel target k ≡ some (pos 0, after))
      × IsChain after.heap after.dma_handle_list (without target xs)
      × (after.freed ≡ k.freed)
unfolding IsChain Found dma_handle_list_remove
dma_handle_list_remove-IsChain k [] fuel target chain found enough = absurd (ground arith)
dma_handle_list_remove-IsChain k (x ∷ xs) fuel target chain found enough =
    let (at_x, real, once, (h, e, valid, rest)) = chain in
    let head = k.dma_handle_list in
    let real_head : head == 0 ≡ false = ground (arith, real, at_x) in
    elim (search-Found k.heap target fuel head head (x ∷ xs) chain found enough) [
      | inl (at_target, r) ↦
          let x_target : x ≡ target = sym at_x ∙ at_target in
          let gone : x == target ≡ true = ground (arith, x_target) in
          let here : k.heap target ≡ some h = ap k.heap (sym x_target) ∙ e in
          let out : IsOut target xs = subst (λ (a : ℕ). IsOut a xs) x_target once in
          let after : Kernel = record k {
            heap = put k.heap target none;
            dma_handle_list = h.next;
          } in
          let left : IsChain after.heap h.next xs =
            IsChain-put k.heap target none h.next xs out rest in
          let first : unlink k head target ≡ some (pos 0, after) =
            ap (λ (a : ℕ). unlink k a target) at_target ∙ unlink-first k target h here in
          (after, rw (real_head, r, first) refl, rw gone left, refl)
      | inr (p, p_in, not_target, r, (hp, ep, (ht, et, left))) ↦
          let apart : p == target ≡ false = ground (arith, not_target) in
          let after : Kernel = record k {
            heap = put (put k.heap p (some (record hp { next = ht.next }))) target none;
          } in
          (after, rw (real_head, r, unlink-later k p target hp ht et ep apart) refl, left, refl)
    ]
