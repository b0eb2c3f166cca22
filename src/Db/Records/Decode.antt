-- ===== src/Db/Records/Decode.antt =====
-- `DBDecoder` of src/db/codec.rs on the records that the format describes.
use peach_db.Base.{
  ℕ, ◌<◌, ◌^◌, ◌≡◌, refl, sym, ◌∙◌, Bool, true, false, ◌++◌, arith, length, replicate,
  length-replicate, ◌==◌, ==_iff,
}
use peach_db.Base.Words.{Bytes, to_le_bytes, length-to_le_bytes, from_le_bytes-to_le_bytes}
use peach_db.Base.Keys.{bytes_eq}
use peach_db.Base.HashMap
use peach_db.Base.HashMap.{HashMap}
use peach_db.Error.{ok, ◌>>=◌}
use peach_db.Cursor.{Crates, remaining, advance}
use peach_db.Cursor.Laws.{read_exact_here, remaining_next}
use peach_db.Dtypes.Codec.{bytes_from_field}
use peach_db.Dtypes.Codec.RoundTrip.{field_from_bytes-bytes_from_field}
use peach_db.Db.DbEncoder.{record_magic_number}
use peach_db.Db.DbDecoder.{
  DbDecoder, is_deleted, read_magic_number, read_key_len, read_field_len, read_crc, read_key,
  read_field, check_crc, store_live, finish_record, decode_db_key_field_pair,
}
use peach_db.Db.Records.{
  DiskRecord, live, dead, IsRecord, crc_input, frame, record_bytes, apply_record,
}
use peach_db.Db.Records.Frame.{at_magic, at_key_len, at_field_len, at_crc, at_key, at_field}
use mathlib.Core.Path.{ap₂}
use native.Mathlib.Nat.{mod-eq_of_lt}

-- The state after the six reads of a record, from a cursor at which its bytes stand.
unfoldable pub after_reads : DbDecoder → Bool → ℕ → ℕ → ℕ → Bytes → Bytes → DbDecoder
after_reads d deleted key_len field_len crc key payload = record d {
  cursor =
      advance field_len (advance key_len (advance 4 (advance 4 (advance 2 (advance 4 d.cursor)))));
  deleted = deleted;
  last_key_len = key_len;
  last_field_len = field_len;
  last_crc = crc;
  last_key = key;
  last_field = payload;
}

module _ (d : DbDecoder) (magic : Bytes) (crc : ℕ) (key payload rest : Bytes)
    (four : length magic ≡ 4) (short : length key < 2 ^ 16) (small : length payload < 2 ^ 32)
    (sum : crc < 2 ^ 32)
    (here : remaining d.cursor
      ≡ frame magic (length key) (length payload) crc key payload ++ rest) where
  pub six_reads :
      (deleted : Bool)
      → is_deleted magic ≡ ok deleted
      → (read_magic_number d
          >>= read_key_len
          >>= read_field_len
          >>= read_crc
          >>= read_key
          >>= read_field)
        ≡ ok (after_reads d deleted (length key) (length payload) crc key payload)
  unfolding read_magic_number read_key_len read_field_len read_crc read_key read_field after_reads
  six_reads deleted tells = rw (
    read_exact_here d.cursor 4 magic _ four
        (at_magic d.cursor magic crc key payload rest four here),
    tells,
    read_exact_here (advance 4 d.cursor) 2 _ _ (length-to_le_bytes 2 (length key))
        (at_key_len d.cursor magic crc key payload rest four here),
    from_le_bytes-to_le_bytes 2 (length key) short,
    read_exact_here (advance 2 (advance 4 d.cursor)) 4 _ _ (length-to_le_bytes 4 (length payload))
        (at_field_len d.cursor magic crc key payload rest four here),
    from_le_bytes-to_le_bytes 4 (length payload) small,
    read_exact_here (advance 4 (advance 2 (advance 4 d.cursor))) 4 _ _ (length-to_le_bytes 4 crc)
        (at_crc d.cursor magic crc key payload rest four here),
    from_le_bytes-to_le_bytes 4 crc sum,
    read_exact_here (advance 4 (advance 4 (advance 2 (advance 4 d.cursor)))) (length key) key _ refl
        (at_key d.cursor magic crc key payload rest four here),
    read_exact_here (advance (length key) (advance 4 (advance 4 (advance 2 (advance 4 d.cursor)))))
        (length payload) payload rest refl (at_field d.cursor magic crc key payload rest four here),
  )

  remaining_after :
      (deleted : Bool)
      → remaining (after_reads d deleted (length key) (length payload) crc key payload).cursor
        ≡ rest
  unfolding after_reads
  remaining_after deleted =
      remaining_next (advance (length key) (advance 4 (advance 4 (advance 2 (advance 4 d.cursor)))))
        (length payload) payload rest refl (at_field d.cursor magic crc key payload rest four here)

-- What one record does to the decoder: the cursor passes it, and the map takes it in.
pub record Decodes (d d' : DbDecoder) (r : DiskRecord) (rest : Bytes) : Type 0 where
  pub left : remaining d'.cursor ≡ rest
  pub db : d'.db ≡ apply_record d.db r
  pub meta : d'.meta ≡ d.meta

module _ (crates : Crates) where
  pub decode_pair-record_bytes :
      (d : DbDecoder) (r : DiskRecord) (rest : Bytes)
      → IsRecord r
      → remaining d.cursor ≡ record_bytes crates r ++ rest
      → (d' : DbDecoder) × (decode_db_key_field_pair crates d ≡ ok d') × Decodes d d' r rest
  unfolding decode_db_key_field_pair finish_record store_live check_crc after_reads is_deleted
      bytes_eq
  decode_pair-record_bytes d (live key field) rest (short, (valid, small)) here = (
    record state { db = HashMap.insert key field d.db },
    rw (
      six_reads d record_magic_number crc key.bytes payload rest refl short small
          (crates.checksum_lt _) here' false refl,
      same,
      field_from_bytes-bytes_from_field field valid,
    ),
    record {
      left =
          remaining_after d record_magic_number crc key.bytes payload rest refl short small
            (crates.checksum_lt _) here' false;
      db = refl;
      meta = refl;
    },
  )
    where
      payload : Bytes
      payload = bytes_from_field field

      crc : ℕ
      crc = crates.checksum (crc_input key.bytes payload)

      state : DbDecoder
      state = after_reads d false (length key.bytes) (length payload) crc key.bytes payload

      here' :
          remaining d.cursor
          ≡ frame record_magic_number (length key.bytes) (length payload) crc key.bytes payload
            ++ rest
      here' =
          here
          ∙ ap₂ (λ a b. frame record_magic_number a b crc key.bytes payload ++ rest)
              (mod-eq_of_lt short) (mod-eq_of_lt small)

      same :
          (crates.checksum (
              to_le_bytes 2 (length key.bytes)
              ++ (to_le_bytes 4 (length payload) ++ (replicate 4 0 ++ (key.bytes ++ payload))))
            == crc)
          ≡ true
      same = (==_iff _ crc).1 (
          ap₂
            (λ a b.
              crates.checksum
                (to_le_bytes 2 a ++ (to_le_bytes 4 b ++ (replicate 4 0 ++ (key.bytes ++ payload)))))
            (sym (mod-eq_of_lt short)) (sym (mod-eq_of_lt small)))
  decode_pair-record_bytes d (dead key_len field_len) rest (short, small) here = (
    after_reads d true (length zero_key) (length zero_field) 0 zero_key zero_field,
    rw (
        six_reads d (replicate 4 0) 0 zero_key zero_field rest refl short' small' (omega arith)
          here' true refl),
    record {
      left =
          remaining_after d (replicate 4 0) 0 zero_key zero_field rest refl short' small'
            (omega arith) here' true;
      db = refl;
      meta = refl;
    },
  )
    where
      zero_key : Bytes
      zero_key = replicate key_len 0

      zero_field : Bytes
      zero_field = replicate field_len 0

      short' : length zero_key < 2 ^ 16
      short' = omega (arith, length-replicate key_len (let z : ℕ = 0 in z))

      small' : length zero_field < 2 ^ 32
      small' = omega (arith, length-replicate field_len (let z : ℕ = 0 in z))

      here' :
          remaining d.cursor
          ≡ frame (replicate 4 0) (length zero_key) (length zero_field) 0 zero_key zero_field
            ++ rest
      here' =
          here
          ∙ ap₂ (λ a b. frame (replicate 4 0) a b 0 zero_key zero_field ++ rest)
              (sym (length-replicate key_len 0)) (sym (length-replicate field_len 0))
