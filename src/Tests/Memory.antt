-- ===== src/Tests/Memory.antt =====
-- The theorems on the kernel driver, on a list of two DMA buffers.
use tipcie.Prelude.{
  ℕ, ◌+◌, ◌==◌, true, false, none, some, pos, [], ◌∷◌, if◌then◌else◌, ◌≡◌, refl, arith,
}
use tipcie.Driver.{
  Handle, Kernel, BufInfo, Answers, dma_magic, tipcie_alloc_dma_buf, tipcie_free_dma_buf,
  tipcie_free_dma_handles,
}
use tipcie.Driver.Chain.{has, IsChain}
use tipcie.Driver.Buffers.{
  tipcie_alloc_dma_buf-IsChain, tipcie_free_dma_buf-IsChain, tipcie_free_dma_handles-all,
}
use tipcie.Ioctl.{io_write, Info, bad_request, tipcie_ioctl_rw}
use tipcie.Ioctl.Writes.{within, tipcie_ioctl_rw-writes}

abbrev handle : (vptr next : ℕ) → Handle
handle vptr next = record {
  magic = dma_magic;
  resource = vptr;
  vptr = vptr;
  phys_addr = vptr;
  pci_addr = vptr;
  size = 0x1000;
  next = next;
}

abbrev two_buffers : Kernel
two_buffers = record {
  heap = λ a.
      if a == 0x10
      then some (handle 0x5000 0x20)
      else if a == 0x20
      then some (handle 0x6000 0)
      else none;
  dma_handle_list = 0x10;
  freed = [];
}

two_buffers-IsChain : IsChain two_buffers.heap two_buffers.dma_handle_list (0x10 ∷ 0x20 ∷ [])
unfolding IsChain
two_buffers-IsChain = (
  refl,
  (λ e. omega arith),
  ((λ e. omega arith), tt),
  (
    handle 0x5000 0x20,
    refl,
    refl,
    (refl, (λ e. omega arith), tt, (handle 0x6000 0, refl, refl, refl)),
  ),
)

abbrev memory_left : Answers
memory_left = record {
  interrupted = false;
  kmalloc = 0x30;
  vptr = 0x7000;
  resource = 0x7000;
  phys = 0x7000;
}

abbrev wanted : BufInfo
wanted = record { dma_osspec_hdl = 0; phys_addr = 0; virt_addr = 0; size = 0x1000 }

tipcie_alloc_dma_buf-IsChain_example :
    (after : Kernel) × (tipcie_alloc_dma_buf memory_left wanted two_buffers
      ≡ some (
        pos 0,
        record wanted { dma_osspec_hdl = 0x30; virt_addr = 0; phys_addr = 0x7000 },
        after,
      ))
    × IsChain after.heap after.dma_handle_list (0x30 ∷ 0x10 ∷ 0x20 ∷ [])
    × (after.freed ≡ [])
tipcie_alloc_dma_buf-IsChain_example =
    tipcie_alloc_dma_buf-IsChain memory_left wanted two_buffers (0x10 ∷ 0x20 ∷ [])
      two_buffers-IsChain refl (λ e. omega arith) ((λ e. omega arith), ((λ e. omega arith), tt))
      (λ e. omega arith)

tipcie_free_dma_buf-IsChain_example :
    (after : Kernel) × (tipcie_free_dma_buf 3 false 0x20 two_buffers ≡ some (pos 0, after))
    × IsChain after.heap after.dma_handle_list (0x10 ∷ [])
    × (after.freed ≡ 0x6000 ∷ [])
tipcie_free_dma_buf-IsChain_example =
    tipcie_free_dma_buf-IsChain two_buffers (0x10 ∷ 0x20 ∷ []) 3 0x20 (handle 0x6000 0)
      two_buffers-IsChain refl (omega arith) refl refl (λ e. omega arith)

tipcie_free_dma_handles-all_example :
    (after : Kernel) × (tipcie_free_dma_handles 3 (λ i. false) two_buffers ≡ some (pos 0, after))
    × (after.dma_handle_list ≡ 0)
    × (after.freed ≡ 0x6000 ∷ 0x5000 ∷ [])
    × ((a : ℕ) → after.heap a ≡ (if has (0x10 ∷ 0x20 ∷ []) a then none else two_buffers.heap a))
tipcie_free_dma_handles-all_example =
    tipcie_free_dma_handles-all (0x10 ∷ 0x20 ∷ []) two_buffers 3 two_buffers-IsChain (omega arith)

-- The second of three offsets lies outside region 0.
abbrev three_writes : Info
three_writes = record {
  command_type = pos 0;
  mem_region = pos 0;
  nreg = 3;
  reg = λ i. if i == 1 then 0x204 else 0x20;
  value = λ i. i + 7;
}

tipcie_ioctl_rw-writes_example :
    let r = tipcie_ioctl_rw (λ log region offset. 0) (λ i. 0) (λ i. false) three_writes [] in
    (r.0 ≡ bad_request)
    × (r.1 ≡ io_write 0 0x20 7 ∷ [])
    × (within 512 three_writes.reg 1 ≡ true)
    × ((i : ℕ) → r.2 i ≡ i + 7)
tipcie_ioctl_rw-writes_example =
    tipcie_ioctl_rw-writes (λ log region offset. 0) (λ i. 0) three_writes 0 [] refl refl
      (omega arith)
