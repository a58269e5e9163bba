-- ===== src/Driver.antt =====
-- linux_driver/TIpcie.c: the kernel driver's list of DMA buffers. The kernel is not in the
-- repository: what it answers a call is an argument. Of its memory the model has the handles, by
-- their addresses; the flags of pages are left out.
pub mod Chain
pub mod Handles
pub mod Buffers
use tipcie.Prelude.{
  ℕ, zero, suc, ◌==◌, not, Bool, true, false, Option, none, some, ℤ, pos, negsuc, List, ◌∷◌,
  if◌then◌else◌,
}

-- DMA_HANDLE_STRUCT. A NULL pointer is 0.
pub record Handle : Type 0 where
  pub magic : ℕ
  pub resource : ℕ
  pub vptr : ℕ
  pub phys_addr : ℕ
  pub pci_addr : ℕ
  pub size : ℕ
  pub next : ℕ

-- TIPCIE_DMA_MAGIC
abbrev pub dma_magic : ℕ
dma_magic = 0x10e3_0001

-- The handles that are allocated, `dma_handle_list`, and the buffers given back by
-- `pci_free_consistent` so far, the newest first.
pub record Kernel : Type 0 where
  pub heap : ℕ → Option Handle
  pub dma_handle_list : ℕ
  pub freed : List ℕ

-- DMA_BUF_INFO
pub record BufInfo : Type 0 where
  pub dma_osspec_hdl : ℕ
  pub phys_addr : ℕ
  pub virt_addr : ℕ
  pub size : ℕ

-- What the kernel answers: whether `down_interruptible` is interrupted, and the results of
-- `kmalloc`, `pci_alloc_consistent` (with the address for the bus) and `virt_to_phys`.
pub record Answers : Type 0 where
  pub interrupted : Bool
  pub kmalloc : ℕ
  pub vptr : ℕ
  pub resource : ℕ
  pub phys : ℕ

abbrev pub put : (ℕ → Option Handle) → ℕ → Option Handle → ℕ → Option Handle
put heap a x i = if i == a then x else heap i

-- The field `next` of an allocated handle is set.
abbrev pub set_next : (ℕ → Option Handle) → (p n : ℕ) → Option (ℕ → Option Handle)
set_next heap p n = elim (heap p) [
  | none ↦ none
  | some h ↦ some (put heap p (some (record h { next = n })))
]

-- In what follows `none` is an access to memory that is not allocated.
pub dma_handle_list_add : ℕ → Kernel → Option (ℤ × Kernel)
dma_handle_list_add dmahandle k =
    if dmahandle == 0
    then some (negsuc 0, k)
    else if k.dma_handle_list == 0
    then (elim (set_next k.heap dmahandle 0) [
      | none ↦ none
      | some heap ↦ some (pos 0, record k { heap = heap; dma_handle_list = dmahandle })
    ])
    else (elim (set_next k.heap dmahandle k.dma_handle_list) [
      | none ↦ none
      | some heap ↦ some (pos 0, record k { heap = heap; dma_handle_list = dmahandle })
    ])

-- The loop of dmaHandleListRemove: whether the handle was found, and the two pointers. `none` also
-- stands for the end of the fuel.
pub search_handle :
    (fuel : ℕ) → (ℕ → Option Handle) → (dmahandle prev_hdl search_hdl : ℕ) → Option (Bool × ℕ × ℕ)
search_handle zero heap dmahandle prev_hdl search_hdl = none
search_handle (suc fuel) heap dmahandle prev_hdl search_hdl =
    let step = λ (h : Handle). search_handle fuel heap dmahandle search_hdl h.next in
    if search_hdl == 0
    then some (false, prev_hdl, search_hdl)
    else if search_hdl == dmahandle
    then some (true, prev_hdl, search_hdl)
    else (elim (heap search_hdl) [ none ↦ none | some h ↦ step h ])

-- The handle that was found is taken out of the list and freed.
pub unlink : Kernel → (prev_hdl search_hdl : ℕ) → Option (ℤ × Kernel)
unlink k prev_hdl search_hdl = elim (k.heap search_hdl) [
  | none ↦ none
  | some h ↦
      if prev_hdl == search_hdl
      then some (pos 0, record k { heap = put k.heap search_hdl none; dma_handle_list = h.next })
      else (elim (set_next k.heap prev_hdl h.next) [
        | none ↦ none
        | some heap ↦ some (pos 0, record k { heap = put heap search_hdl none })
      ])
]

pub dma_handle_list_remove : (fuel dmahandle : ℕ) → Kernel → Option (ℤ × Kernel)
unfolding search_handle unlink
dma_handle_list_remove fuel dmahandle k =
    if k.dma_handle_list == 0
    then some (negsuc 0, k)
    else (elim (search_handle fuel k.heap dmahandle k.dma_handle_list k.dma_handle_list) [
      | none ↦ none
      | some (found, prev_hdl, search_hdl) ↦
          if found then unlink k prev_hdl search_hdl else some (negsuc 0, k)
    ])

abbrev blank_handle : Handle
blank_handle = record {
  magic = 0;
  resource = 0;
  vptr = 0;
  phys_addr = 0;
  pci_addr = 0;
  size = 0;
  next = 0;
}

-- TIpcieAllocDmaBuf; the user's structure comes back too. When there is no buffer, the handle stays
-- allocated.
pub tipcie_alloc_dma_buf : Answers → BufInfo → Kernel → Option (ℤ × BufInfo × Kernel)
unfolding dma_handle_list_add
tipcie_alloc_dma_buf os info k =
    if os.interrupted
    then some (negsuc 0, info, k)
    else if os.kmalloc == 0
    then some (negsuc 0, info, k)
    else let info1 = record info { dma_osspec_hdl = os.kmalloc } in
      let sized = record blank_handle {
        size = info.size;
        vptr = os.vptr;
        resource = os.resource;
      } in
      if os.vptr == 0
      then some (negsuc 0, info1, record k { heap = put k.heap os.kmalloc (some sized) })
      else let filled = record sized {
        phys_addr = os.phys;
        pci_addr = os.phys;
        magic = dma_magic;
      } in
        let info2 = record info1 { virt_addr = 0; phys_addr = os.phys } in
        (elim (dma_handle_list_add os.kmalloc
          (record k { heap = put k.heap os.kmalloc (some filled) })) [
            | none ↦ none
            | some (status, k2) ↦ some (status, info2, k2)
          ])

-- TIpcieFreeDmaBuf
pub tipcie_free_dma_buf :
    (fuel : ℕ) → (interrupted : Bool) → (dma_osspec_hdl : ℕ) → Kernel → Option (ℤ × Kernel)
unfolding dma_handle_list_remove
tipcie_free_dma_buf fuel interrupted dmahandle k =
    if dmahandle == 0 then some (negsuc 0, k) else (elim (k.heap dmahandle) [
      | none ↦ none
      | some h ↦
          if not (h.magic == dma_magic)
          then some (negsuc 0, k)
          else if interrupted
          then some (negsuc 0, k)
          else dma_handle_list_remove fuel dmahandle (record k { freed = h.vptr ∷ k.freed })
    ])

-- The loop of TIpcieFreeDmaHandles, which frees the first handle in each turn; `fuel` bounds its
-- turns and the length of the list.
pub tipcie_free_dma_handles : (fuel : ℕ) → (interrupted : ℕ → Bool) → Kernel → Option (ℤ × Kernel)
unfolding tipcie_free_dma_buf
tipcie_free_dma_handles zero interrupted k = none
tipcie_free_dma_handles (suc fuel) interrupted k =
    let rest = tipcie_free_dma_handles fuel interrupted in
    if k.dma_handle_list == 0
    then some (pos 0, k)
    else (elim (tipcie_free_dma_buf (suc fuel) (interrupted fuel) k.dma_handle_list k) [
      | none ↦ none
      | some (pos zero, k2) ↦ rest k2
      | some (pos (suc n), k2) ↦ some (pos 0, k2)
      | some (negsuc n, k2) ↦ some (pos 0, k2)
    ])
