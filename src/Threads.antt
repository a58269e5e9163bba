-- ===== src/Threads.antt =====
-- Threads that call the library at once: their accesses in any order that `tipcieMutex` allows.
-- TIPLOCK waits until the mutex is free; everything else a thread does at any time.
pub mod Exclusion
use tipcie.Prelude.{ℕ, Bool, true, false, Option, none, some, [], ◌∷◌, ◌==◌, if◌then◌else◌, ◌≡◌}
use tipcie.Machine.{read, write, jtag_read, jtag_write, dma_read, lock, unlock, sleep, Event, Log}

-- The thread that locked the mutex and has not unlocked it yet, and each thread's own accesses.
pub record System : Type 0 where
  pub owner : Option ℕ
  pub logs : ℕ → Log

abbrev pub idle_system : System
idle_system = record { owner = none; logs = λ t. [] }

-- Neither TIPLOCK nor TIPUNLOCK.
abbrev pub is_other : Event → Bool
is_other (read r v) = true
is_other (write r v) = true
is_other (jtag_read r v) = true
is_other (jtag_write r v) = true
is_other (dma_read r v) = true
is_other lock = false
is_other unlock = false
is_other (sleep n) = true

abbrev pub append_log : ℕ → Event → (ℕ → Log) → ℕ → Log
append_log t e logs u = if u == t then e ∷ logs u else logs u

pub data Step : System → System → Type 0 where
  takes :
      (s : System) (t : ℕ)
      → s.owner ≡ none
      → Step s (record { owner = some t; logs = append_log t lock s.logs })
  gives : (s : System) (t : ℕ) → Step s (record { owner = none; logs = append_log t unlock s.logs })
  acts :
      (s : System) (t : ℕ) (e : Event)
      → is_other e ≡ true
      → Step s (record { owner = s.owner; logs = append_log t e s.logs })

pub data Reach : System → Type 0 where
  here : Reach idle_system
  next : {s u : System} → Reach s → Step s u → Reach u
