-- ===== src/Machine/Touch.antt =====
-- How often the card and its memory were touched.
use tipcie.Prelude.{ℕ, suc, [], ◌∷◌}
use tipcie.Machine.{read, write, jtag_read, jtag_write, dma_read, lock, unlock, sleep, Log}

abbrev pub touches : Log → ℕ
touches [] = 0
touches (read r v ∷ l) = suc (touches l)
touches (write r v ∷ l) = suc (touches l)
touches (jtag_read r v ∷ l) = suc (touches l)
touches (jtag_write r v ∷ l) = suc (touches l)
touches (dma_read r v ∷ l) = suc (touches l)
touches (lock ∷ l) = touches l
touches (unlock ∷ l) = touches l
touches (sleep n ∷ l) = touches l
