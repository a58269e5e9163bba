-- ===== src/Machine/Registers.antt =====
-- Registers that keep what is written to them, and the commands that go out by the trigger command
-- register.
use tipcie.Prelude.{arith, ◌<◌, ℕ, ◌%◌, ◌^◌, ◌/◌, Bool, List, [], ◌∷◌, ◌≡◌, ◌==◌, if◌then◌else◌}
use tipcie.Machine.{Device, read, write, jtag_read, jtag_write, dma_read, lock, unlock, sleep, Log}
use tipcie.Machine.Reg

-- What was written to the register last, or what it held at the start.
abbrev pub stored : (r start : ℕ) → Log → ℕ
stored r start [] = start
stored r start (write r' v ∷ l) = if r == r' then v % 2 ^ 32 else stored r start l
stored r start (read r' v ∷ l) = stored r start l
stored r start (jtag_read r' v ∷ l) = stored r start l
stored r start (jtag_write r' v ∷ l) = stored r start l
stored r start (dma_read r' v ∷ l) = stored r start l
stored r start (lock ∷ l) = stored r start l
stored r start (unlock ∷ l) = stored r start l
stored r start (sleep n ∷ l) = stored r start l

-- The register of the card answers with what was written to it last.
abbrev pub Remembers : Device → (r start : ℕ) → Type 0
Remembers dev r start = (l : Log) → dev.answer l r % 2 ^ 32 ≡ stored r start l

-- The commands written to the trigger command register, the newest first, each with whether the
-- VME source (bit 4 of TRIGSRC) was on at that time. The command is sent only if it was.
abbrev pub commands : (start : ℕ) → Log → List (ℕ × Bool)
commands start [] = []
commands start (write r v ∷ l) =
    if r == Reg.trigger_command
    then (v, stored Reg.trigsrc start l / 2 ^ 4 % 2 == 1) ∷ commands start l
    else commands start l
commands start (read r v ∷ l) = commands start l
commands start (jtag_read r v ∷ l) = commands start l
commands start (jtag_write r v ∷ l) = commands start l
commands start (dma_read r v ∷ l) = commands start l
commands start (lock ∷ l) = commands start l
commands start (unlock ∷ l) = commands start l
commands start (sleep n ∷ l) = commands start l

pub stored-lt : (r start : ℕ) (l : Log) → start < 2 ^ 32 → stored r start l < 2 ^ 32
stored-lt r start [] h = h
stored-lt r start (read r' v ∷ l) h = stored-lt r start l h
stored-lt r start (write r' v ∷ l) h = ground (arith, stored-lt r start l h)
stored-lt r start (jtag_read r' v ∷ l) h = stored-lt r start l h
stored-lt r start (jtag_write r' v ∷ l) h = stored-lt r start l h
stored-lt r start (dma_read r' v ∷ l) h = stored-lt r start l h
stored-lt r start (lock ∷ l) h = stored-lt r start l h
stored-lt r start (unlock ∷ l) h = stored-lt r start l h
stored-lt r start (sleep n ∷ l) h = stored-lt r start l h
