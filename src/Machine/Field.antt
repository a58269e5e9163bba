-- ===== src/Machine/Field.antt =====
-- Registers whose fields are set and read back: the accesses that the library's functions share.
use tipcie.Prelude.{
  ℕ, ◌*◌, ◌/◌, ◌%◌, ◌^◌, ◌<◌, bit_and, bit_or, ℤ, ok, to_int, ◌∷◌, ◌≡◌, refl, arith,
}
use tipcie.Bits.Fields.{not32, mask, field, and-field}
use tipcie.Bits.Insert.{put_field, insert-put_field}
use tipcie.Machine.{
  Device, World, M, pure, ◌>>=◌, ◌>>◌, tiplock, tipunlock, tip_read, tip_write, read, write, lock,
  unlock,
}
use tipcie.Machine.Registers.{stored, Remembers}

-- The register with the field of width `k` at shift `s` replaced by `p`, under the mutex.
abbrev pub set_field : Device → (r s k p : ℕ) → M ℤ
set_field dev r s k p = do
  tiplock
  v ← tip_read dev r
  tip_write r (bit_or (bit_and v (not32 (mask s k))) (p * 2 ^ s))
  tipunlock
  pure ok

-- The field read, under the mutex.
abbrev pub get_field : Device → (r s k : ℕ) → M ℤ
get_field dev r s k = do
  tiplock
  v ← tip_read dev r
  tipunlock
  pure (to_int (bit_and v (mask s k) / 2 ^ s))

module _ (dev : Device) (r start : ℕ) (mem : Remembers dev r start) where
  module _ (s k p : ℕ) (fits : p < 2 ^ k) (hm : mask s k < 2 ^ 32) (w : World)
      (small : put_field s k p (stored r start w.log) < 2 ^ 32) where
    -- What the write leaves behind.
    abbrev pub field_set : World
    field_set =
        let v = stored r start w.log in
        record w { log = unlock ∷ write r (put_field s k p v) ∷ read r v ∷ lock ∷ w.log }

    pub set_field_run : set_field dev r s k p w ≡ (ok, field_set)
    set_field_run =
        let v = stored r start w.log in
        let old = mem (lock ∷ w.log) in
        let insert : bit_or (bit_and v (not32 (mask s k))) (p * 2 ^ s) ≡ put_field s k p v =
          insert-put_field s k v (omega (arith, old)) hm p fits in
        let whole : put_field s k p v % 2 ^ 32 ≡ put_field s k p v = omega (arith, small) in
        rw (old, insert, whole) refl

    pub stored-field_set : stored r start field_set.log ≡ put_field s k p (stored r start w.log)
    stored-field_set =
        let whole : put_field s k p (stored r start w.log) % 2 ^ 32
            ≡ put_field s k p (stored r start w.log) =
          omega (arith, small) in
        ground (arith, whole)

  pub get_field-field :
      (s k : ℕ) (w : World)
      → (get_field dev r s k w).0 ≡ to_int (field s k (stored r start w.log) * 2 ^ s / 2 ^ s)
  get_field-field s k w =
      let old = mem (lock ∷ w.log) in rw (old, and-field s k (stored r start w.log)) refl
