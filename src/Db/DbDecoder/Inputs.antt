-- ===== src/Db/DbDecoder/Inputs.antt =====
-- `DBDecoder` of src/db/codec.rs on any input.
use peach_db.Base.{
  ℕ, zero, suc, ◌-◌, ◌≤◌, ◌≢◌, arith, not, Bool, false, Bool-cases, inl, inr, length, replicate,
  ltb, ◌==◌,
}
use peach_db.Base.Words.{Bytes}
use peach_db.Error.{
  Outcome, ok, err, diverged, invalid_magic_bytes, corrupted_record, ◌>>=◌, >>=-ne-diverged,
}
use peach_db.Cursor
use peach_db.Cursor.{Cursor, Crates, read_exact}
use peach_db.Cursor.Inputs.{left, read_uint_le-ne-diverged, read_exact-ne-diverged}
use peach_db.Base.Keys.{bytes_eq}
use peach_db.Db.DbEncoder.{record_magic_number}
use peach_db.Cursor.Within.{
  Within, Within-of, Within-bind, Within-ends, read_exact-Within, behind, used_up, unread,
  Within-if, Within-then, left-le_length,
}
use peach_db.Dtypes.Codec.Inputs.{field_from_bytes-ne-diverged}
use peach_db.Dtypes.Codec.{field_from_bytes}
use peach_db.Db.DbDecoder.{
  DbDecoder, is_deleted, read_magic_number, read_key_len, read_field_len, read_crc, read_key,
  read_field, is_metadata_key, read_metadata_key, header_for_crc, check_crc, store_live,
  finish_record, decode_db_key_field_pair, decode_db_header, decode_records, decode_db_file,
}

-- What is left of the input.
abbrev unused : DbDecoder → ℕ
unused d = left d.cursor

pub is_deleted-Within : (magic : Bytes) (n : ℕ) → Within (λ (b : Bool). 0) n (is_deleted magic)
unfolding is_deleted
is_deleted-Within magic n = Within-if _ n (bytes_eq magic (replicate 4 0)) _ _ (omega arith) (
    Within-if _ n (bytes_eq magic record_magic_number) (ok false) (err invalid_magic_bytes)
      (omega arith) tt)

read_magic_number-Within : (d : DbDecoder) → Within unused (unused d - 4) (read_magic_number d)
unfolding read_magic_number
read_magic_number-Within d =
    Within-bind behind unused (unused d - 4) (unused d - 4) (read_exact 4 d.cursor) _
      (read_exact-Within 4 d.cursor)
      λ r h.
        Within-bind (λ (b : Bool). 0) unused 0 (unused d - 4) (is_deleted r.0) _
          (is_deleted-Within r.0 0) λ b _. h

read_key_len-Within : (d : DbDecoder) → Within unused (unused d) (read_key_len d)
unfolding read_key_len
read_key_len-Within d =
    Within-bind behind unused _ (unused d) (read_exact 2 d.cursor) _ (read_exact-Within 2 d.cursor)
      λ r h. omega (arith, h)

read_field_len-Within : (d : DbDecoder) → Within unused (unused d) (read_field_len d)
unfolding read_field_len
read_field_len-Within d =
    Within-bind behind unused _ (unused d) (read_exact 4 d.cursor) _ (read_exact-Within 4 d.cursor)
      λ r h. omega (arith, h)

read_crc-Within : (d : DbDecoder) → Within unused (unused d) (read_crc d)
unfolding read_crc
read_crc-Within d =
    Within-bind behind unused _ (unused d) (read_exact 4 d.cursor) _ (read_exact-Within 4 d.cursor)
      λ r h. omega (arith, h)

read_key-Within : (d : DbDecoder) → Within unused (unused d) (read_key d)
unfolding read_key
read_key-Within d =
    Within-bind behind unused _ (unused d) (read_exact d.last_key_len d.cursor) _
      (read_exact-Within d.last_key_len d.cursor) λ r h. omega (arith, h)

read_field-Within : (d : DbDecoder) → Within unused (unused d) (read_field d)
unfolding read_field
read_field-Within d =
    Within-bind behind unused _ (unused d) (read_exact d.last_field_len d.cursor) _
      (read_exact-Within d.last_field_len d.cursor) λ r h. omega (arith, h)

read_metadata_key-Within : (d : DbDecoder) → Within unused (unused d) (read_metadata_key d)
unfolding read_metadata_key
read_metadata_key-Within d =
    Within-bind behind unused _ (unused d) (read_exact 8 d.cursor) _ (read_exact-Within 8 d.cursor)
      λ r h. Within-if unused (unused d) (is_metadata_key r.0) _ _ (omega (arith, h)) tt

module _ (crates : Crates) where
  finish_record-Within : (d : DbDecoder) → Within unused (unused d) (finish_record crates d)
  unfolding finish_record store_live check_crc
  finish_record-Within d =
      Within-if unused (unused d) (not d.deleted) _ _
        (Within-then unused (unused d) (check_crc crates d) _
          (Within-if unused (unused d) (crates.checksum (header_for_crc d) == d.last_crc) (ok d)
            (err (corrupted_record "Checksum Mismatch")) (omega arith) tt)
          λ e.
            Within-bind (λ _. 0) unused 0 (unused e) (field_from_bytes e.last_field) _
              (Within-of (λ _. 0) 0 (field_from_bytes e.last_field)
                (field_from_bytes-ne-diverged e.last_field) (λ _ _. omega arith))
              λ r _. omega arith)
        (omega arith)

  decode_db_key_field_pair-Within :
      (d : DbDecoder) → Within unused (unused d - 4) (decode_db_key_field_pair crates d)
  unfolding decode_db_key_field_pair
  decode_db_key_field_pair-Within d =
      chain _ (finish_record crates)
        (chain _ read_field
          (chain _ read_key
            (chain _ read_crc
              (chain _ read_field_len
                (chain (read_magic_number d) read_key_len (read_magic_number-Within d)
                  read_key_len-Within)
                read_field_len-Within)
              read_crc-Within)
            read_key-Within)
          read_field-Within)
        finish_record-Within
    where
      chain :
          (m : Outcome DbDecoder) (f : DbDecoder → Outcome DbDecoder)
          → Within unused (unused d - 4) m
          → ((e : DbDecoder) → Within unused (unused e) (f e))
          → Within unused (unused d - 4) (m >>= f)
      chain m f h k = Within-then unused (unused d - 4) m f h k

  decode_records-ne-diverged :
      (fuel : ℕ) (d : DbDecoder) → unused d ≤ fuel → decode_records crates fuel d ≢ diverged
  unfolding decode_records
  decode_records-ne-diverged zero d h = rw (used_up d.cursor h) (λ p. cc)
  decode_records-ne-diverged (suc fuel) d h =
      elim (Bool-cases (ltb d.cursor.position (length d.cursor.inner))) [
        | inl more ↦ rw more (
            Within-ends unused (unused d - 4) (decode_db_key_field_pair crates d)
              (decode_records crates fuel) (decode_db_key_field_pair-Within d)
              λ e le.
                decode_records-ne-diverged fuel e (omega (arith, le, h, unread d.cursor more)))
        | inr done ↦ rw done (λ p. cc)
      ]

  decode_db_header-ne-diverged : (d : DbDecoder) → decode_db_header crates d ≢ diverged
  unfolding decode_db_header
  decode_db_header-ne-diverged d =
      key (record d { cursor = Cursor.set_position 0 d.cursor })
        λ d₁. >>=-ne-diverged _ _ (read_uint_le-ne-diverged crates 8 d₁.cursor) λ r₁ _.
          key (record d₁ { cursor = r₁.1 })
            λ d₂. >>=-ne-diverged _ _ (read_uint_le-ne-diverged crates 1 d₂.cursor) λ r₂ _.
              >>=-ne-diverged _ _ (read_uint_le-ne-diverged crates 1 r₂.1) λ r₃ _.
                key (record d₂ { cursor = r₃.1 })
                  λ d₃. >>=-ne-diverged _ _ (read_uint_le-ne-diverged crates 8 d₃.cursor) λ r₄ _.
                    key (record d₃ { cursor = r₄.1 })
                      λ d₄. >>=-ne-diverged _ _ (read_exact-ne-diverged 64 d₄.cursor) λ r₅ _ p. cc
    where
      key :
          (e : DbDecoder) {f : DbDecoder → Outcome DbDecoder}
          → ((e' : DbDecoder) → f e' ≢ diverged)
          → (read_metadata_key e >>= f) ≢ diverged
      key e {f} k =
          Within-ends unused (unused e) (read_metadata_key e) f (read_metadata_key-Within e)
            (λ e' _. k e')

  -- The decoder of the `.db` file ends on every input.
  pub decode_db_file-ne-diverged : (d : DbDecoder) → decode_db_file crates d ≢ diverged
  unfolding decode_db_file
  decode_db_file-ne-diverged d =
      >>=-ne-diverged _ _ (decode_db_header-ne-diverged d)
        λ d' _. decode_records-ne-diverged (length d'.cursor.inner) d' (left-le_length d'.cursor)
