-- ===== src/Driver/Buffers.antt =====
-- DMA buffers asked for, given back, and given back together. (TIpcieFreeDmaHandles is not called
-- anywhere in the driver.)
use tipcie.Prelude.{
  ℕ, zero, suc, ◌<◌, ◌==◌, true, false, Option, none, some, pos, List, [], ◌∷◌, length,
  if◌then◌else◌, ◌≡◌, ◌≢◌, inl, inr, refl, sym, ap, subst, ◌∙◌, Bool-cases, arith,
}
use tipcie.Driver.{
  Handle, Kernel, BufInfo, Answers, dma_magic, put, dma_handle_list_add, search_handle,
  dma_handle_list_remove, tipcie_alloc_dma_buf, tipcie_free_dma_buf, tipcie_free_dma_handles,
}
use tipcie.Driver.Chain.{IsOut, has, without, Heap, IsChain, IsChain-put}
use tipcie.Driver.Handles.{unlink-first, dma_handle_list_remove-IsChain}

-- If the kernel has memory at an address outside the list and a buffer, tipcie_alloc_dma_buf
-- returns 0 with the handle's address and the buffer's, the list has the new handle in front, and
-- nothing was given back.
pub tipcie_alloc_dma_buf-IsChain :
    (os : Answers) (info : BufInfo) (k : Kernel) (xs : List ℕ)
    → IsChain k.heap k.dma_handle_list xs
    → os.interrupted ≡ false
    → os.kmalloc ≢ 0
    → IsOut os.kmalloc xs
    → os.vptr ≢ 0
    → (after : Kernel) × (tipcie_alloc_dma_buf os info k
        ≡ some (
          pos 0,
          record info { dma_osspec_hdl = os.kmalloc; virt_addr = 0; phys_addr = os.phys },
          after,
        ))
      × IsChain after.heap after.dma_handle_list (os.kmalloc ∷ xs)
      × (after.freed ≡ k.freed)
unfolding tipcie_alloc_dma_buf dma_handle_list_add IsChain
tipcie_alloc_dma_buf-IsChain os info k xs chain calm memory fresh buffer =
    let a = os.kmalloc in
    let given : BufInfo = record info { dma_osspec_hdl = a; virt_addr = 0; phys_addr = os.phys } in
    let has_memory : a == 0 ≡ false = ground arith in
    let has_buffer : os.vptr == 0 ≡ false = ground arith in
    let self : a == a ≡ true = ground arith in
    let filled : Handle = record {
      magic = dma_magic;
      resource = os.resource;
      vptr = os.vptr;
      phys_addr = os.phys;
      pci_addr = os.phys;
      size = info.size;
      next = 0;
    } in
    let linked : Handle = record filled { next = k.dma_handle_list } in
    let heap : Heap = put (put k.heap a (some filled)) a (some linked) in
    let after : Kernel = record k { heap = heap; dma_handle_list = a } in
    let rest =
      IsChain-put (put k.heap a (some filled)) a (some linked) k.dma_handle_list xs fresh
        (IsChain-put k.heap a (some filled) k.dma_handle_list xs fresh chain) in
    (
      after,
      elim (Bool-cases (k.dma_handle_list == 0)) [
        | inl first ↦
            let e : k.dma_handle_list ≡ 0 = ground arith in
            let same : some (
              pos 0,
              given,
              record k {
                heap = put (put k.heap a (some filled)) a (some filled);
                dma_handle_list = a;
              },
            )
                ≡ some (pos 0, given, after) =
              ap
                (λ (n : ℕ). some (
                  pos 0,
                  given,
                  record k {
                    heap = put (put k.heap a (some filled)) a (some (record filled { next = n }));
                    dma_handle_list = a;
                  },
                ))
                (sym e) in
            rw (calm, has_memory, has_buffer, first, self) same
        | inr more ↦ rw (calm, has_memory, has_buffer, more, self) refl
      ],
      (refl, memory, fresh, (linked, rw self refl, refl, rest)),
      refl,
    )

-- Of a handle in the list, and not interrupted, tipcie_free_dma_buf returns 0, gives back the
-- handle's buffer, and the list is then the same without this handle.
pub tipcie_free_dma_buf-IsChain :
    (k : Kernel) (xs : List ℕ) (fuel target : ℕ) (h : Handle)
    → IsChain k.heap k.dma_handle_list xs
    → has xs target ≡ true
    → length xs < fuel
    → k.heap target ≡ some h
    → h.magic ≡ dma_magic
    → target ≢ 0
    → (after : Kernel) × (tipcie_free_dma_buf fuel false target k ≡ some (pos 0, after))
      × IsChain after.heap after.dma_handle_list (without target xs)
      × (after.freed ≡ h.vptr ∷ k.freed)
unfolding tipcie_free_dma_buf
tipcie_free_dma_buf-IsChain k xs fuel target h chain found enough e valid real =
    let given : Kernel = record k { freed = h.vptr ∷ k.freed } in
    let real_target : target == 0 ≡ false = ground arith in
    let is_valid : h.magic == dma_magic ≡ true = ground arith in
    let (after, r, left, freed) =
      dma_handle_list_remove-IsChain given xs fuel target chain found enough in
    (after, rw (real_target, e, is_valid) r, left, freed)

remove-first :
    (k : Kernel) (fuel : ℕ) (h : Handle)
    → k.heap k.dma_handle_list ≡ some h
    → k.dma_handle_list ≢ 0
    → dma_handle_list_remove (suc fuel) k.dma_handle_list k
      ≡ some
          (pos 0, record k { heap = put k.heap k.dma_handle_list none; dma_handle_list = h.next })
unfolding dma_handle_list_remove search_handle
remove-first k fuel h e real =
    let real_head : k.dma_handle_list == 0 ≡ false = ground arith in
    let self : k.dma_handle_list == k.dma_handle_list ≡ true = ground arith in
    rw (real_head, self) (unlink-first k k.dma_handle_list h e)

-- The kernel after the first handle of the list is given back.
abbrev after_first : Kernel → Handle → Kernel
after_first k h = record {
  heap = put k.heap k.dma_handle_list none;
  dma_handle_list = h.next;
  freed = h.vptr ∷ k.freed;
}

-- The buffers of a list of handles, the last one first, in front of others.
abbrev vptr_of : Option Handle → ℕ
vptr_of none = 0
vptr_of (some h) = h.vptr

abbrev pub given_back : Heap → List ℕ → List ℕ → List ℕ
given_back heap [] others = others
given_back heap (x ∷ xs) others = given_back heap xs (vptr_of (heap x) ∷ others)

given_back-put :
    (heap : Heap) (a : ℕ) (xs others : List ℕ)
    → IsOut a xs
    → given_back (put heap a none) xs others ≡ given_back heap xs others
given_back-put heap a [] others out = refl
given_back-put heap a (x ∷ xs) others out =
    let apart : x == a ≡ false = ground (arith, out.0) in
    rw apart (given_back-put heap a xs (vptr_of (heap x) ∷ others) out.1)

-- For a list of handles, with fuel for more turns than it is long and never interrupted,
-- tipcie_free_dma_handles ends and returns 0; the list is then empty, every buffer of its handles
-- has been given back once, in their order, its handles are no longer allocated, and all others are
-- as before.
pub tipcie_free_dma_handles-all :
    (xs : List ℕ) (k : Kernel) (fuel : ℕ)
    → IsChain k.heap k.dma_handle_list xs
    → length xs < fuel
    → (after : Kernel) × (tipcie_free_dma_handles fuel (λ i. false) k ≡ some (pos 0, after))
      × (after.dma_handle_list ≡ 0)
      × (after.freed ≡ given_back k.heap xs k.freed)
      × ((a : ℕ) → after.heap a ≡ (if has xs a then none else k.heap a))
unfolding IsChain tipcie_free_dma_handles
tipcie_free_dma_handles-all xs k zero chain enough = absurd (omega arith)
tipcie_free_dma_handles-all [] k (suc fuel) chain enough =
    let empty : k.dma_handle_list == 0 ≡ true = ground arith in
    (k, rw empty refl, chain, refl, λ a. refl)
tipcie_free_dma_handles-all (x ∷ xs) k (suc fuel) (at_x, real, once, (h, e, valid, rest)) enough =
    let head = k.dma_handle_list in
    let here : k.heap head ≡ some h = ap k.heap at_x ∙ e in
    let real_head : head ≢ 0 = ground (arith, real, at_x) in
    let more : head == 0 ≡ false = ground arith in
    let is_valid : h.magic == dma_magic ≡ true = ground arith in
    let out : IsOut head xs = subst (λ (a : ℕ). IsOut a xs) (sym at_x) once in
    let k2 = after_first k h in
    let chain2 : IsChain k2.heap k2.dma_handle_list xs =
      IsChain-put k.heap head none h.next xs out rest in
    let (after, r, empty, freed, heap) =
      tipcie_free_dma_handles-all xs k2 fuel chain2 (omega arith) in
    let first : vptr_of (k.heap x) ≡ h.vptr = ap vptr_of e in
    let all_freed : given_back k2.heap xs (h.vptr ∷ k.freed)
        ≡ given_back k.heap xs (vptr_of (k.heap x) ∷ k.freed) =
      rw first (given_back-put k.heap head xs (h.vptr ∷ k.freed) out) in
    (
      after,
      rw
          (
            more,
            here,
            is_valid,
            remove-first (record k { freed = h.vptr ∷ k.freed }) fuel h here real_head,
          )
          r,
      empty,
      freed ∙ all_freed,
      λ a. heap a ∙ (elim (Bool-cases (x == a)) [
        | inl own ↦ let s : a == head ≡ true = ground (arith, at_x) in rw (s, own) (ground arith)
        | inr other ↦ let s : a == head ≡ false = ground (arith, at_x) in rw (s, other) refl
      ]),
    )
