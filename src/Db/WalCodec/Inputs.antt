-- ===== src/Db/WalCodec/Inputs.antt =====
-- `WalDecoder` of src/db/codec.rs on any input.
use peach_db.Base.{
  ℕ, zero, suc, ◌≤◌, ◌<◌, ◌≡◌, ◌≢◌, arith, length, ltb, length-drop, Bool-cases, inl, inr,
}
use peach_db.Base.Words.{Bytes}
use peach_db.Error.{ok, diverged, >>=-eq-ok, >>=-ne-diverged}
use peach_db.Cursor.{Crates, read_exact}
use peach_db.Cursor.Inputs.{
  left, read_exact_takes, read_uint_le_takes, read_uint_le-ne-diverged, read_exact-ne-diverged,
}
use peach_db.Dtypes.Codec.{field_from_bytes}
use peach_db.Dtypes.Codec.Inputs.{field_from_bytes-ne-diverged}
use peach_db.Db.WalCodec.{
  WalDecoder, new_decoder, decode_set_entry, decode_delete_entry, decode_tagged, decode_wal_entry,
  decode_wal_loop, decode_wal_entries, decode_wal,
}

module _ (crates : Crates) where
  decode_set_entry-ne-diverged : (d : WalDecoder) → decode_set_entry crates d ≢ diverged
  unfolding decode_set_entry
  decode_set_entry-ne-diverged d =
      >>=-ne-diverged _ _ (read_uint_le-ne-diverged crates 2 d.cursor) λ r₁ _.
        >>=-ne-diverged _ _ (read_exact-ne-diverged _ _) λ r₂ _.
          >>=-ne-diverged _ _ (read_uint_le-ne-diverged crates 4 _) λ r₃ _.
            >>=-ne-diverged _ _ (read_exact-ne-diverged _ _)
              λ r₄ _. >>=-ne-diverged _ _ (field_from_bytes-ne-diverged _) (λ r₅ _ p. cc)

  decode_delete_entry-ne-diverged : (d : WalDecoder) → decode_delete_entry crates d ≢ diverged
  unfolding decode_delete_entry
  decode_delete_entry-ne-diverged d =
      >>=-ne-diverged _ _ (read_uint_le-ne-diverged crates 2 d.cursor)
        λ r₁ _. >>=-ne-diverged _ _ (read_exact-ne-diverged _ _) (λ r₂ _ p. cc)

  decode_tagged-ne-diverged : (b : ℕ) (d : WalDecoder) → decode_tagged crates b d ≢ diverged
  unfolding decode_tagged
  decode_tagged-ne-diverged b d h =
      ground (arith, decode_set_entry-ne-diverged d, decode_delete_entry-ne-diverged d)

  decode_wal_entry-ne-diverged : (d : WalDecoder) → decode_wal_entry crates d ≢ diverged
  unfolding decode_wal_entry
  decode_wal_entry-ne-diverged d =
      >>=-ne-diverged _ _ (read_uint_le-ne-diverged crates 1 d.cursor)
        λ r _. decode_tagged-ne-diverged r.0 (record d { cursor = r.1 })

  decode_set_entry-left :
      (d d' : WalDecoder) → decode_set_entry crates d ≡ ok d' → left d'.cursor ≤ left d.cursor
  unfolding decode_set_entry
  decode_set_entry-left d d' h =
      let (r₁, e₁, h₁) = >>=-eq-ok (crates.read_uint_le 2 d.cursor) _ h in
      let (r₂, e₂, h₂) = >>=-eq-ok (read_exact r₁.0 r₁.1) _ h₁ in
      let (r₃, e₃, h₃) = >>=-eq-ok (crates.read_uint_le 4 r₂.1) _ h₂ in
      let (r₄, e₄, h₄) = >>=-eq-ok (read_exact r₃.0 r₃.1) _ h₃ in
      let (r₅, e₅, h₅) = >>=-eq-ok (field_from_bytes r₄.0) _ h₄ in
      ground (
        arith,
        read_uint_le_takes crates 2 d.cursor r₁ e₁,
        read_exact_takes r₁.0 r₁.1 r₂ e₂,
        read_uint_le_takes crates 4 r₂.1 r₃ e₃,
        read_exact_takes r₃.0 r₃.1 r₄ e₄,
        h₅,
      )

  decode_delete_entry-left :
      (d d' : WalDecoder) → decode_delete_entry crates d ≡ ok d' → left d'.cursor ≤ left d.cursor
  unfolding decode_delete_entry
  decode_delete_entry-left d d' h =
      let (r₁, e₁, h₁) = >>=-eq-ok (crates.read_uint_le 2 d.cursor) _ h in
      let (r₂, e₂, h₂) = >>=-eq-ok (read_exact r₁.0 r₁.1) _ h₁ in
      ground
        (arith, read_uint_le_takes crates 2 d.cursor r₁ e₁, read_exact_takes r₁.0 r₁.1 r₂ e₂, h₂)

  decode_tagged-left :
      (b : ℕ) (d d' : WalDecoder)
      → decode_tagged crates b d ≡ ok d'
      → left d'.cursor ≤ left d.cursor
  unfolding decode_tagged
  decode_tagged-left b d d' h =
      ground (arith, decode_set_entry-left d d', decode_delete_entry-left d d')

  -- Each entry takes its type byte at least.
  decode_wal_entry-left :
      (d d' : WalDecoder) → decode_wal_entry crates d ≡ ok d' → left d'.cursor < left d.cursor
  unfolding decode_wal_entry
  decode_wal_entry-left d d' h =
      let (r, e, h') = >>=-eq-ok (crates.read_uint_le 1 d.cursor) _ h in
      omega (
        arith,
        read_uint_le_takes crates 1 d.cursor r e,
        decode_tagged-left r.0 (record d { cursor = r.1 }) d' h',
      )

  decode_wal_loop-ne-diverged :
      (fuel : ℕ) (d : WalDecoder) → left d.cursor ≤ fuel → decode_wal_loop crates fuel d ≢ diverged
  unfolding decode_wal_loop
  decode_wal_loop-ne-diverged zero d h =
      ground (arith, length-drop d.cursor.position d.cursor.inner)
  decode_wal_loop-ne-diverged (suc fuel) d h =
      elim (Bool-cases (ltb d.cursor.position (length d.cursor.inner))) [
        | inl more ↦ rw more (
            >>=-ne-diverged _ _ (decode_wal_entry-ne-diverged d) λ d' e.
              decode_wal_loop-ne-diverged fuel d' (omega (arith, decode_wal_entry-left d d' e)))
        | inr done ↦ rw done (λ p. cc)
      ]

  -- The fuel that `decode_wal` starts with is enough for every input.
  pub decode_wal-ne-diverged : (bytes : Bytes) → decode_wal crates bytes ≢ diverged
  unfolding decode_wal decode_wal_entries
  decode_wal-ne-diverged bytes =
      >>=-ne-diverged _ _
        (decode_wal_loop-ne-diverged (length bytes) (new_decoder bytes) (omega arith)) (λ d _ p. cc)
