-- ===== src/Db/Records/Encode.antt =====
-- `DBEncoder` of src/db/codec.rs and the record that the format describes.
use peach_db.Base.{
  ℕ, ◌+◌, ◌≡◌, refl, sym, ap, ◌∙◌, ◌++◌, arith, length, replicate, length-append, drop-add,
  take_here, drop_here, le→leb,
}
use peach_db.Base.Words.{Bytes, as_u16, as_u32, to_le_bytes, length-to_le_bytes}
use peach_db.Error.{ok}
use peach_db.Cursor.{Crates}
use peach_db.Dtypes.Key
use peach_db.Dtypes.Key.{Key}
use peach_db.Dtypes.Field.{Field}
use peach_db.Dtypes.Codec.{bytes_from_field}
use peach_db.Db.DbEncoder
use peach_db.Db.DbEncoder.{
  DbEncoder, record_magic_number, overwrite, encode_crc, encode_db_key_field_pair, encode,
}
use peach_db.Db.Records.{live, record_bytes}
use mathlib.Core.List.{append_assoc}

overwrite_here :
    (n : ℕ) (xs old new ys : Bytes)
    → length xs ≡ n
    → length old ≡ length new
    → overwrite n new (xs ++ (old ++ ys)) ≡ ok (xs ++ (new ++ ys))
unfolding overwrite
overwrite_here n xs old new ys e same = rw (
  le→leb (n + length new) (length (xs ++ (old ++ ys)))
      (omega (arith, length-append xs (old ++ ys), length-append old ys)),
  take_here n xs (old ++ ys) e,
  drop-add n (length new) (xs ++ (old ++ ys)),
  drop_here n xs (old ++ ys) e,
  drop_here (length new) old ys same,
)

module _ (crates : Crates) where
  -- The checksum is computed over what stands behind the magic number, and written over the
  -- placeholder.
  encode_crc_here :
      (before magic lengths rest : Bytes)
      → length magic ≡ 4
      → length lengths ≡ 6
      → encode_crc crates (record {
        buffer = (before ++ magic) ++ (lengths ++ (replicate 4 0 ++ rest));
        field_start_position = length before;
      })
        ≡ ok (record {
          buffer =
              (before ++ magic)
              ++ (lengths
                  ++ (to_le_bytes 4 (crates.checksum (lengths ++ (replicate 4 0 ++ rest)))
                      ++ rest));
          field_start_position = length before;
        })
  unfolding encode_crc
  encode_crc_here before magic lengths rest m l =
      rw
        (
          drop_here (length before + 4) (before ++ magic) (lengths ++ (replicate 4 0 ++ rest))
              first,
          ← append_assoc (before ++ magic) lengths (replicate 4 0 ++ rest),
          overwrite_here (length before + 10) ((before ++ magic) ++ lengths) (replicate 4 0) sum
              rest (omega (arith, length-append (before ++ magic) lengths, first))
              (sym (length-to_le_bytes 4 _)),
        )
        (ap (λ t. ok (record { buffer = t; field_start_position = length before }))
          (append_assoc (before ++ magic) lengths (sum ++ rest)))
    where
      sum : Bytes
      sum = to_le_bytes 4 (crates.checksum (lengths ++ (replicate 4 0 ++ rest)))

      first : length (before ++ magic) ≡ length before + 4
      first = omega (arith, length-append before magic)

  -- On any key and value, and whatever the buffer holds, the encoder appends the record of the two,
  -- checksum included, and does not panic.
  pub encode_db_key_field_pair-live :
      (key : Key) (field : Field) (e : DbEncoder)
      → encode_db_key_field_pair crates key field e
        ≡ ok (record {
          buffer = e.buffer ++ record_bytes crates (live key field);
          field_start_position = length e.buffer;
        })
  unfolding encode_db_key_field_pair
  encode_db_key_field_pair-live key field e =
      ap (λ t. encode_crc crates (state t)) (simp append_assoc)
      ∙ encode_crc_here e.buffer record_magic_number lengths (key.bytes ++ payload) refl (
          omega (
            arith,
            length-append key_len field_len,
            length-to_le_bytes 2 (as_u16 (Key.len key)),
            length-to_le_bytes 4 (as_u32 (length payload)),
          ))
      ∙ ap (λ t. ok (state t)) (simp append_assoc)
    where
      payload : Bytes
      payload = bytes_from_field field

      key_len : Bytes
      key_len = to_le_bytes 2 (as_u16 (Key.len key))

      field_len : Bytes
      field_len = to_le_bytes 4 (as_u32 (length payload))

      lengths : Bytes
      lengths = key_len ++ field_len

      state : Bytes → DbEncoder
      state t = record { buffer = t; field_start_position = length e.buffer }

  pub encode-live :
      (key : Key) (field : Field)
      → encode crates key field ≡ ok (record_bytes crates (live key field))
  unfolding encode
  encode-live key field = rw (encode_db_key_field_pair-live key field DbEncoder.new)
