-- ===== src/Setup/Reopen.antt =====
-- A card that was closed stays closed for tipOpen.
use tipcie.Prelude.{ok, error, above, true, ◌≡◌, arith}
use tipcie.Machine.{World}
use tipcie.Setup.{Os, tip_open, tip_close}

-- After tip_open has succeeded with a positive descriptor, tip_close returns OK, and the library
-- still counts as open; whatever the operating system would answer, tip_open then returns ERROR and
-- changes nothing.
pub tip_open-after_close :
    (os later : Os) (w : World)
    → above os.open_fd 0 ≡ true
    → (tip_open os w).0 ≡ ok
    → let closed = tip_close (tip_open os w).1 in
      (closed.0 ≡ ok) × (tip_open later closed.1 ≡ (error, closed.1)) × (closed.1.lib.opened ≡ true)
unfolding tip_open tip_close
tip_open-after_close os later w fd success = ground arith
