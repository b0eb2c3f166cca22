-- ===== src/Db/IndexCodec/Inputs.antt =====
-- `IndexDecoder` of src/db/codec.rs on any input.
use peach_db.Base.{ℕ, zero, suc, ◌-◌, ◌≤◌, ◌≢◌, arith, Bool-cases, inl, inr, length, ltb}
use peach_db.Base.Words.{Bytes}
use peach_db.Error.{Outcome, diverged, ◌>>=◌, >>=-ne-diverged}
use peach_db.Cursor.{Crates, read_exact}
use peach_db.Cursor.Inputs.{left}
use peach_db.Cursor.Within.{
  Within, Within-bind, Within-then, Within-ends, read_exact-Within, read_uint_le-Within, behind,
  used_up, unread,
}
use peach_db.Db.IndexCodec.{
  IndexDecoder, new_decoder, read_key, read_index, read_key_len, read_field_len, decode_index_entry,
  decode_index_loop, decode_index_file, decode_index,
}

-- What is left of the input.
abbrev unused : IndexDecoder → ℕ
unused d = left d.cursor

read_key-Within : (d : IndexDecoder) → Within unused (unused d) (read_key d)
unfolding read_key
read_key-Within d =
    Within-bind behind unused _ (unused d) (read_exact d.last_key_len d.cursor) _
      (read_exact-Within d.last_key_len d.cursor) λ r h. omega (arith, h)

module _ (crates : Crates) where
  read_key_len-Within : (d : IndexDecoder) → Within unused (unused d - 2) (read_key_len crates d)
  unfolding read_key_len
  read_key_len-Within d =
      Within-bind behind unused _ (unused d - 2) (crates.read_uint_le 2 d.cursor) _
        (read_uint_le-Within crates 2 d.cursor) λ r h. h

  read_field_len-Within : (d : IndexDecoder) → Within unused (unused d) (read_field_len crates d)
  unfolding read_field_len
  read_field_len-Within d =
      Within-bind behind unused _ (unused d) (crates.read_uint_le 4 d.cursor) _
        (read_uint_le-Within crates 4 d.cursor) λ r h. omega (arith, h)

  read_index-Within : (d : IndexDecoder) → Within unused (unused d) (read_index crates d)
  unfolding read_index
  read_index-Within d =
      Within-bind behind unused _ (unused d) (crates.read_uint_le 8 d.cursor) _
        (read_uint_le-Within crates 8 d.cursor) λ r h. omega (arith, h)

  decode_index_entry-Within :
      (d : IndexDecoder) → Within unused (unused d - 2) (decode_index_entry crates d)
  unfolding decode_index_entry
  decode_index_entry-Within d =
      Within-bind unused unused (unused d - 2) (unused d - 2) _ _
        (chain _ (read_index crates)
          (chain _ (read_field_len crates)
            (chain (read_key_len crates d) read_key (read_key_len-Within d) read_key-Within)
            read_field_len-Within)
          read_index-Within)
        λ e h. h
    where
      chain :
          (m : Outcome IndexDecoder) (f : IndexDecoder → Outcome IndexDecoder)
          → Within unused (unused d - 2) m
          → ((e : IndexDecoder) → Within unused (unused e) (f e))
          → Within unused (unused d - 2) (m >>= f)
      chain m f h k = Within-then unused (unused d - 2) m f h k

  decode_index_loop-ne-diverged :
      (fuel : ℕ) (d : IndexDecoder) → unused d ≤ fuel → decode_index_loop crates fuel d ≢ diverged
  unfolding decode_index_loop
  decode_index_loop-ne-diverged zero d h = rw (used_up d.cursor h) (λ p. cc)
  decode_index_loop-ne-diverged (suc fuel) d h =
      elim (Bool-cases (ltb d.cursor.position (length d.cursor.inner))) [
        | inl more ↦ rw more (
            Within-ends unused (unused d - 2) (decode_index_entry crates d)
              (decode_index_loop crates fuel) (decode_index_entry-Within d)
              λ e le.
                decode_index_loop-ne-diverged fuel e (omega (arith, le, h, unread d.cursor more)))
        | inr done ↦ rw done (λ p. cc)
      ]

  -- The decoder of the index ends on every input.
  pub decode_index-ne-diverged : (bytes : Bytes) → decode_index crates bytes ≢ diverged
  unfolding decode_index decode_index_file
  decode_index-ne-diverged bytes =
      >>=-ne-diverged _ _
        (decode_index_loop-ne-diverged (length bytes) (new_decoder bytes) (omega arith)) λ d _ p. cc
