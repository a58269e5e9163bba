-- ===== src/Machine/Lock.antt =====
-- `tipcieMutex`, read off the accesses. It is not recursive: a thread that locks it twice waits for
-- itself for ever.
use tipcie.Prelude.{Bool, true, false, not, ◌&&◌, [], ◌∷◌, ◌≡◌, if◌then◌else◌}
use tipcie.Machine.{
  read, write, jtag_read, jtag_write, dma_read, lock, unlock, sleep, Log, World, M,
}

-- Whether the thread holds the mutex after these accesses.
abbrev pub held : Log → Bool
held [] = false
held (read r v ∷ l) = held l
held (write r v ∷ l) = held l
held (jtag_read r v ∷ l) = held l
held (jtag_write r v ∷ l) = held l
held (dma_read r v ∷ l) = held l
held (lock ∷ l) = true
held (unlock ∷ l) = false
held (sleep n ∷ l) = held l

-- It was locked only when it was free and unlocked only when it was held, and the card was touched
-- only under it.
abbrev pub disciplined : Log → Bool
disciplined [] = true
disciplined (read r v ∷ l) = held l && disciplined l
disciplined (write r v ∷ l) = held l && disciplined l
disciplined (jtag_read r v ∷ l) = held l && disciplined l
disciplined (jtag_write r v ∷ l) = held l && disciplined l
disciplined (dma_read r v ∷ l) = held l && disciplined l
disciplined (lock ∷ l) = not (held l) && disciplined l
disciplined (unlock ∷ l) = held l && disciplined l
disciplined (sleep n ∷ l) = disciplined l

-- Between two calls: the mutex is free, and it was used as it should be so far.
pub record IsIdle (w : World) : Type 0 where
  pub free : held w.log ≡ false
  pub clean : disciplined w.log ≡ true

-- A call that starts idle ends idle.
abbrev pub KeepsIdle {ℓ} : {A : Type ℓ} → M A → Type 0
KeepsIdle m = (w : World) → IsIdle w → IsIdle (m w).1

-- Inside a call: the mutex is held.
pub record IsHeld (w : World) : Type 0 where
  pub taken : held w.log ≡ true
  pub clean : disciplined w.log ≡ true

abbrev pub KeepsHeld {ℓ} : {A : Type ℓ} → M A → Type 0
KeepsHeld m = (w : World) → IsHeld w → IsHeld (m w).1

abbrev pub Releases {ℓ} : {A : Type ℓ} → M A → Type 0
Releases m = (w : World) → IsHeld w → IsIdle (m w).1

pub if-KeepsIdle {ℓ} :
    {A : Type ℓ} (b : Bool) (m n : M A) → KeepsIdle m → KeepsIdle n → KeepsIdle (if b then m else n)
if-KeepsIdle true m n hm hn = hm
if-KeepsIdle false m n hm hn = hn
