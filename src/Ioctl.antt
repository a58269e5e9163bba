-- ===== src/Ioctl.antt =====
-- linux_driver/TIpcie.c: the requests of a program to the kernel driver (TIpcie_ioctl). What the
-- card and the kernel answer are arguments.
pub mod Writes
use tipcie.Prelude.{
  ℕ, zero, suc, ◌==◌, ◌||◌, not, Bool, true, false, Option, none, some, ℤ, pos, negsuc, equals, ltb,
  List, ◌∷◌, if◌then◌else◌,
}
use tipcie.Driver.{Kernel, BufInfo, Answers, tipcie_alloc_dma_buf, tipcie_free_dma_buf}

-- What a request returns: 0, -ENOTTY or -EFAULT.
pub data Status : Type 0 where
  done bad_request bad_address : Status

-- iowrite32 and ioread32 by memory region and offset, with the value.
pub data Io : Type 0 where
  io_write : (mem_region offset value : ℕ) → Io
  io_read : (mem_region offset value : ℕ) → Io

-- TIPCIE_MEM0_SIZE, TIPCIE_MEM1_SIZE and TIPCIE_MEM2_SIZE
abbrev pub region_size : ℕ → ℕ
region_size mem_region = if mem_region == 0 then 512 else if mem_region == 1 then 4096 else 1024

-- TIPCIE_IOCTL_INFO with the arrays that it points to.
pub record Info : Type 0 where
  pub command_type : ℤ
  pub mem_region : ℤ
  pub nreg : ℕ
  pub reg : ℕ → ℕ
  pub value : ℕ → ℕ

-- The loop over the registers: `left` are to be written, from number `ireg` on.
pub write_regs : (left ireg mem_region : ℕ) → (reg value : ℕ → ℕ) → List Io → Status × List Io
write_regs zero ireg mem_region reg value log = (done, log)
write_regs (suc left) ireg mem_region reg value log =
    let rest =
      write_regs left (suc ireg) mem_region reg value
        (io_write mem_region (reg ireg) (value ireg) ∷ log) in
    if ltb (region_size mem_region) (reg ireg) then (bad_request, log) else rest

-- The same for reads, with the array that is filled.
pub read_regs :
    (card : List Io → ℕ → ℕ → ℕ)
    → (left ireg mem_region : ℕ) → (reg value : ℕ → ℕ) → List Io
    → Status × List Io × (ℕ → ℕ)
read_regs card zero ireg mem_region reg value log = (done, log, value)
read_regs card (suc left) ireg mem_region reg value log =
    let v = card log mem_region (reg ireg) in
    let filled = λ (j : ℕ). if j == ireg then v else value j in
    let rest =
      read_regs card left (suc ireg) mem_region reg filled
        (io_read mem_region (reg ireg) v ∷ log) in
    if ltb (region_size mem_region) (reg ireg) then (bad_request, log, value) else rest

-- TIPCIE_RW_STAT: the three addresses go to the start of the array.
stat_values : (bar : ℕ → ℕ) → (ℕ → ℕ) → ℕ → ℕ
stat_values bar value j = if ltb j 3 then bar j else value j

-- A region that there is: 0, 1 or 2.
is_region : ℤ → Bool
is_region (pos n) = ltb n 3
is_region (negsuc n) = false

abbrev region_of : ℤ → ℕ
region_of (pos n) = n
region_of (negsuc n) = 0

-- The commands, once the request is copied in.
run_rw : (card : List Io → ℕ → ℕ → ℕ) → (bar : ℕ → ℕ) → Info → List Io → Status × List Io × (ℕ → ℕ)
unfolding write_regs read_regs stat_values is_region
run_rw card bar info log =
    if equals info.command_type 0
    then (if is_region info.mem_region
        then (let r = write_regs info.nreg 0 (region_of info.mem_region) info.reg info.value log in
            (r.0, r.1, info.value))
        else (bad_request, log, info.value))
    else if equals info.command_type 1
    then (if is_region info.mem_region
        then read_regs card info.nreg 0 (region_of info.mem_region) info.reg info.value log
        else (bad_request, log, info.value))
    else if equals info.command_type 2
    then (done, log, stat_values bar info.value)
    else (bad_request, log, info.value)

is_done : Status → Bool
is_done done = true
is_done bad_request = false
is_done bad_address = false

-- TIPCIE_IOC_RW. `copy_fails i` says whether the copy number `i` from or to the program fails. The
-- program's array comes back.
pub tipcie_ioctl_rw :
    (card : List Io → ℕ → ℕ → ℕ)
    → (bar : ℕ → ℕ) → (copy_fails : ℕ → Bool) → Info
    → List Io
    → Status × List Io × (ℕ → ℕ)
unfolding run_rw is_done
tipcie_ioctl_rw card bar copy_fails info log =
    if copy_fails 0 || (copy_fails 1 || copy_fails 2)
    then (bad_address, log, info.value)
    else let (status, accesses, value) = run_rw card bar info log in
      if not (is_done status)
      then (status, accesses, info.value)
      else if copy_fails 3
      then (bad_address, accesses, info.value)
      else let filled = λ (j : ℕ). if ltb j info.nreg then value j else info.value j in
        if copy_fails 4 then (bad_address, accesses, filled) else (done, accesses, filled)

-- TIPCIE_IOC_MEM; that an allocation or a release failed is not returned.
pub tipcie_ioctl_mem :
    (os : Answers)
    → (copy_fails : ℕ → Bool) → (fuel command_type : ℕ) → BufInfo
    → Kernel
    → Option (Status × BufInfo × Kernel)
tipcie_ioctl_mem os copy_fails fuel command_type info k =
    if copy_fails 0
    then some (bad_address, info, k)
    else if command_type == 0
    then (elim (tipcie_alloc_dma_buf os info k) [
      | none ↦ none
      | some (status, given, k2) ↦
          some (if copy_fails 1 then (bad_address, info, k2) else (done, given, k2))
    ])
    else if command_type == 1
    then (elim (tipcie_free_dma_buf fuel os.interrupted info.dma_osspec_hdl k) [
      | none ↦ none
      | some (status, k2) ↦ some (if copy_fails 1 then bad_address else done, info, k2)
    ])
    else some (bad_request, info, k)
