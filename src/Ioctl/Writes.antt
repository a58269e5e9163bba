-- ===== src/Ioctl/Writes.antt =====
-- A request to write registers.
use tipcie.Prelude.{
  ℕ, zero, suc, ◌+◌, ◌<◌, ◌==◌, ◌++◌, Bool, true, false, pos, leb, ltb, all_below, List, [], ◌∷◌,
  if◌then◌else◌, ◌≡◌, refl, subst, Bool-cases, inl, inr, arith,
}
use tipcie.Ioctl.{
  done, bad_request, Io, io_write, Info, region_size, write_regs, run_rw, is_done, is_region,
  tipcie_ioctl_rw,
}

if-same : (b : Bool) (n : ℕ) → (if b then n else n) ≡ n
if-same true n = refl
if-same false n = refl

-- How many registers, from number `ireg` on, come before the first one that lies outside.
abbrev pub leading : (size : ℕ) → (ℕ → ℕ) → (left ireg : ℕ) → ℕ
leading size reg zero ireg = 0
leading size reg (suc left) ireg =
    let rest = leading size reg left (suc ireg) in if ltb size (reg ireg) then 0 else suc rest

-- The writes of the first `n` registers, the newest first.
abbrev pub writes : (mem_region : ℕ) → (reg value : ℕ → ℕ) → ℕ → List Io
writes mem_region reg value zero = []
writes mem_region reg value (suc n) =
    io_write mem_region (reg n) (value n) ∷ writes mem_region reg value n

abbrev pub within : (size : ℕ) → (ℕ → ℕ) → ℕ → Bool
within size reg n = all_below (λ i. leb (reg i) size) n

leading-within :
    (size : ℕ) (reg : ℕ → ℕ) (left ireg : ℕ)
    → within size reg ireg ≡ true
    → within size reg (ireg + leading size reg left ireg) ≡ true
leading-within size reg zero ireg h = let e : ireg + 0 ≡ ireg = omega arith in rw e h
leading-within size reg (suc left) ireg h = elim (Bool-cases (ltb size (reg ireg))) [
  | inl outside ↦ let e : ireg + 0 ≡ ireg = omega arith in rw (outside, e) h
  | inr inside ↦
      let e : ireg + suc (leading size reg left (suc ireg))
          ≡ suc ireg + leading size reg left (suc ireg) =
        omega arith in
      let fits : leb (reg ireg) size ≡ true = ground arith in
      let next : within size reg (suc ireg) ≡ true = rw (fits, h) refl in
      rw (inside, e) (leading-within size reg left (suc ireg) next)
]

module _ (mem_region : ℕ) (reg value : ℕ → ℕ) (log : List Io) where
  write_regs-writes :
      (left ireg : ℕ)
      → let m = leading (region_size mem_region) reg left ireg in
        write_regs left ireg mem_region reg value (writes mem_region reg value ireg ++ log)
        ≡ (if m == left then done else bad_request, writes mem_region reg value (ireg + m) ++ log)
  unfolding write_regs
  write_regs-writes zero ireg = let e : ireg + 0 ≡ ireg = omega arith in rw e refl
  write_regs-writes (suc left) ireg = elim (Bool-cases (ltb (region_size mem_region) (reg ireg))) [
    | inl outside ↦
        let e : ireg + 0 ≡ ireg = omega arith in
        let short : 0 == suc left ≡ false = ground arith in rw (outside, e, short) refl
    | inr inside ↦
        let m = leading (region_size mem_region) reg left (suc ireg) in
        let e : ireg + suc m ≡ suc ireg + m = omega arith in
        let t : (suc m == suc left) ≡ (m == left) = ground arith in
        rw (inside, e, t) (write_regs-writes left (suc ireg))
  ]

-- For a request to write `nreg` registers of region 0, 1 or 2, all of whose copies succeed,
-- tipcie_ioctl_rw writes the registers in their order up to the first whose offset is above the
-- region's size, and no other; it returns 0 if there is no such offset and -ENOTTY if there is; each
-- offset that is written is at most the region's size; and the program's values stay as they were.
pub tipcie_ioctl_rw-writes :
    (card : List Io → ℕ → ℕ → ℕ) (bar : ℕ → ℕ) (info : Info) (mem_region : ℕ) (log : List Io)
    → info.command_type ≡ pos 0
    → info.mem_region ≡ pos mem_region
    → mem_region < 3
    → let r = tipcie_ioctl_rw card bar (λ i. false) info log in
      let n = leading (region_size mem_region) info.reg info.nreg 0 in
      (r.0 ≡ (if n == info.nreg then done else bad_request))
      × (r.1 ≡ writes mem_region info.reg info.value n ++ log)
      × (within (region_size mem_region) info.reg n ≡ true)
      × ((i : ℕ) → r.2 i ≡ info.value i)
unfolding tipcie_ioctl_rw run_rw is_done is_region
tipcie_ioctl_rw-writes card bar info mem_region log write region real =
    let n = leading (region_size mem_region) info.reg info.nreg 0 in
    let run = write_regs-writes mem_region info.reg info.value log info.nreg 0 in
    let known : ltb mem_region 3 ≡ true = ground arith in
    let e : 0 + n ≡ n = omega arith in
    let inside : within (region_size mem_region) info.reg n ≡ true =
      subst (λ (m : ℕ). within (region_size mem_region) info.reg m ≡ true) e
        (leading-within (region_size mem_region) info.reg info.nreg 0 refl) in
    elim (Bool-cases (n == info.nreg)) [
      | inl all ↦
          rw (write, region, known, run, e, all)
            (refl, refl, inside, λ i. if-same (ltb i info.nreg) (info.value i))
      | inr some_bad ↦ rw (write, region, known, run, e, some_bad) (refl, refl, inside, λ i. refl)
    ]
