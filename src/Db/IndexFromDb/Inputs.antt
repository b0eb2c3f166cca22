-- ===== src/Db/IndexFromDb/Inputs.antt =====
-- `IndexFromDBDecoder` of src/db/codec.rs on any input.
use peach_db.Base.{
  ℕ, zero, suc, ◌+◌, ◌-◌, ◌≤◌, ◌≢◌, arith, Bool, Bool-cases, inl, inr, length, ltb, ◌==◌,
  length-drop,
}
use peach_db.Base.Words.{Bytes}
use peach_db.Error.{Outcome, ok, err, diverged, invalid_index_entry, ◌>>=◌, >>=-ne-diverged}
use peach_db.Cursor
use peach_db.Cursor.{Cursor, Crates, read_exact}
use peach_db.Cursor.Inputs.{left, read_uint_le-ne-diverged}
use peach_db.Cursor.Within.{
  Within, Within-bind, Within-if, Within-then, Within-ends, read_exact-Within, behind, used_up,
  unread, left-le_length,
}
use peach_db.Db.DbDecoder.{is_deleted}
use peach_db.Db.DbDecoder.Inputs.{is_deleted-Within}
use peach_db.Db.IndexFromDb.{
  IndexFromDbDecoder, new, set_last_index, read_magic_number, read_key_len, read_field_len,
  skip_crc, read_key, skip_field, skip_metadata_key, index_push, index_record, decode_db_header,
  index_records, decode_index_from_file, index_from_db,
}

-- What is left of the input.
abbrev unused : IndexFromDbDecoder → ℕ
unused d = left d.cursor

left-skip : (n : ℕ) (c : Cursor) → left (Cursor.advance n c) ≤ left c
left-skip n c = omega (arith, length-drop (c.position + n) c.inner, length-drop c.position c.inner)

read_magic_number-Within :
    (d : IndexFromDbDecoder) → Within unused (unused d - 4) (read_magic_number d)
unfolding read_magic_number
read_magic_number-Within d =
    Within-bind behind unused (unused d - 4) (unused d - 4) (read_exact 4 d.cursor) _
      (read_exact-Within 4 d.cursor)
      λ r h.
        Within-bind (λ (b : Bool). 0) unused 0 (unused d - 4) (is_deleted r.0) _
          (is_deleted-Within r.0 0) λ b _. h

read_key_len-Within : (d : IndexFromDbDecoder) → Within unused (unused d) (read_key_len d)
unfolding read_key_len
read_key_len-Within d =
    Within-bind behind unused _ (unused d) (read_exact 2 d.cursor) _ (read_exact-Within 2 d.cursor)
      λ r h. omega (arith, h)

read_field_len-Within : (d : IndexFromDbDecoder) → Within unused (unused d) (read_field_len d)
unfolding read_field_len
read_field_len-Within d =
    Within-bind behind unused _ (unused d) (read_exact 4 d.cursor) _ (read_exact-Within 4 d.cursor)
      λ r h. omega (arith, h)

read_key-Within : (d : IndexFromDbDecoder) → Within unused (unused d) (read_key d)
unfolding read_key
read_key-Within d =
    Within-bind behind unused _ (unused d) (read_exact d.last_key_len d.cursor) _
      (read_exact-Within d.last_key_len d.cursor) λ r h. omega (arith, h)

skip_crc-Within : (d : IndexFromDbDecoder) → Within unused (unused d) (skip_crc d)
unfolding skip_crc
skip_crc-Within d = left-skip 4 d.cursor

skip_field-Within : (d : IndexFromDbDecoder) → Within unused (unused d) (skip_field d)
unfolding skip_field
skip_field-Within d = left-skip d.last_field_len d.cursor

index_push-Within : (d : IndexFromDbDecoder) → Within unused (unused d) (index_push d)
unfolding index_push
index_push-Within d = Within-if unused (unused d) d.deleted _ _ (omega arith) (
    Within-if unused (unused d) (length d.last_key == 0) (err invalid_index_entry) (ok _) tt
      (omega arith))

index_record-Within : (d : IndexFromDbDecoder) → Within unused (unused d - 4) (index_record d)
unfolding index_record set_last_index
index_record-Within d =
    chain _ index_push
      (chain _ skip_field
        (chain _ read_key
          (chain _ skip_crc
            (chain _ read_field_len
              (chain (read_magic_number (record d { last_index = d.cursor.position })) read_key_len
                (read_magic_number-Within (record d { last_index = d.cursor.position }))
                read_key_len-Within)
              read_field_len-Within)
            skip_crc-Within)
          read_key-Within)
        skip_field-Within)
      index_push-Within
  where
    chain :
        (m : Outcome IndexFromDbDecoder) (f : IndexFromDbDecoder → Outcome IndexFromDbDecoder)
        → Within unused (unused d - 4) m
        → ((e : IndexFromDbDecoder) → Within unused (unused e) (f e))
        → Within unused (unused d - 4) (m >>= f)
    chain m f h k = Within-then unused (unused d - 4) m f h k

module _ (crates : Crates) where
  index_records-ne-diverged :
      (fuel : ℕ) (d : IndexFromDbDecoder) → unused d ≤ fuel → index_records crates fuel d ≢ diverged
  unfolding index_records
  index_records-ne-diverged zero d h = rw (used_up d.cursor h) (λ p. cc)
  index_records-ne-diverged (suc fuel) d h =
      elim (Bool-cases (ltb d.cursor.position (length d.cursor.inner))) [
        | inl more ↦ rw more (
            Within-ends unused (unused d - 4) (index_record d) (index_records crates fuel)
              (index_record-Within d)
              λ e le. index_records-ne-diverged fuel e (omega (arith, le, h, unread d.cursor more)))
        | inr done ↦ rw done (λ p. cc)
      ]

  decode_db_header-ne-diverged : (d : IndexFromDbDecoder) → decode_db_header crates d ≢ diverged
  unfolding decode_db_header skip_metadata_key
  decode_db_header-ne-diverged d = >>=-ne-diverged _ _ (read_uint_le-ne-diverged crates 8 _) λ r₁ _.
      >>=-ne-diverged _ _ (read_uint_le-ne-diverged crates 1 _) λ r₂ _.
        >>=-ne-diverged _ _ (read_uint_le-ne-diverged crates 1 _)
          λ r₃ _. >>=-ne-diverged _ _ (read_uint_le-ne-diverged crates 8 _) λ r₄ _ p. cc

  -- The index is rebuilt from every input, or that fails.
  pub index_from_db-ne-diverged : (bytes : Bytes) → index_from_db crates bytes ≢ diverged
  unfolding index_from_db decode_index_from_file
  index_from_db-ne-diverged bytes =
      >>=-ne-diverged _ _
        (>>=-ne-diverged _ _ (decode_db_header-ne-diverged (new bytes))
          λ d _. index_records-ne-diverged (length d.cursor.inner) d (left-le_length d.cursor))
        λ d _ p. cc
