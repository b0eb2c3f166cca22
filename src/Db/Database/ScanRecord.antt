-- ===== src/Db/Database/ScanRecord.antt =====
-- `IndexFromDBDecoder` of src/db/codec.rs on one record.
use peach_db.Base.{
  ℕ, ◌+◌, ◌<◌, ◌^◌, ◌≡◌, refl, sym, ap, ◌∙◌, Bool, true, false, List, [], ◌∷◌, ◌++◌, arith, length,
  replicate, length-replicate, ◌==◌,
}
use peach_db.Base.Words.{Bytes, length-to_le_bytes, from_le_bytes-to_le_bytes}
use peach_db.Base.Keys.{bytes_eq}
use peach_db.Base.HashMap
use peach_db.Base.HashMap.{HashMap}
use peach_db.Error.{ok}
use peach_db.Cursor.{Crates, remaining, advance}
use peach_db.Cursor.Laws.{read_exact_here, remaining_next}
use peach_db.Dtypes.Key
use peach_db.Dtypes.Key.{Key}
use peach_db.Dtypes.Codec.{bytes_from_field}
use peach_db.Db.DbEncoder.{record_magic_number}
use peach_db.Db.DbDecoder.{is_deleted}
use peach_db.Db.IndexCodec.{IndexEntry}
use peach_db.Db.IndexFromDb.{
  IndexFromDbDecoder, set_last_index, read_magic_number, read_key_len, read_field_len, skip_crc,
  read_key, skip_field, index_push, index_record,
}
use peach_db.Db.Records.{DiskRecord, live, dead, IsRecord, crc_input, frame, record_bytes}
use peach_db.Db.Records.Frame.{at_magic, at_key_len, at_field_len, at_key, at_field}
use peach_db.Base.HashMap.Laws.{get-insert}
use peach_db.Db.Database.Flush.{index_entry}
use peach_db.Db.Database.Located.{size, locate}
use mathlib.Core.Path.{ap₂}
use native.Mathlib.Nat.{mod-eq_of_lt}

-- The state behind a record, before its entry is pushed.
behind_record : IndexFromDbDecoder → Bool → Bytes → ℕ → IndexFromDbDecoder
behind_record d deleted key field_len = record d {
  cursor =
      advance field_len
        (advance (length key) (advance 4 (advance 4 (advance 2 (advance 4 d.cursor)))));
  last_index = d.cursor.position;
  deleted = deleted;
  last_key_len = length key;
  last_field_len = field_len;
  last_key = key;
}

module _ (d : IndexFromDbDecoder) (magic : Bytes) (crc : ℕ) (key payload rest : Bytes)
    (four : length magic ≡ 4) (short : length key < 2 ^ 16) (small : length payload < 2 ^ 32)
    (here : remaining d.cursor
      ≡ frame magic (length key) (length payload) crc key payload ++ rest) where
  index_record-frame :
      (deleted : Bool)
      → is_deleted magic ≡ ok deleted
      → index_record d ≡ index_push (behind_record d deleted key (length payload))
  unfolding index_record set_last_index read_magic_number read_key_len read_field_len skip_crc
      read_key skip_field behind_record
  index_record-frame deleted tells = rw (
    read_exact_here d.cursor 4 magic _ four
        (at_magic d.cursor magic crc key payload rest four here),
    tells,
    read_exact_here (advance 4 d.cursor) 2 _ _ (length-to_le_bytes 2 (length key))
        (at_key_len d.cursor magic crc key payload rest four here),
    from_le_bytes-to_le_bytes 2 (length key) short,
    read_exact_here (advance 2 (advance 4 d.cursor)) 4 _ _ (length-to_le_bytes 4 (length payload))
        (at_field_len d.cursor magic crc key payload rest four here),
    from_le_bytes-to_le_bytes 4 (length payload) small,
    read_exact_here (advance 4 (advance 4 (advance 2 (advance 4 d.cursor)))) (length key) key _ refl
        (at_key d.cursor magic crc key payload rest four here),
  )

  remaining_behind :
      (deleted : Bool) → remaining (behind_record d deleted key (length payload)).cursor ≡ rest
  unfolding behind_record
  remaining_behind deleted =
      remaining_next (advance (length key) (advance 4 (advance 4 (advance 2 (advance 4 d.cursor)))))
        (length payload) payload rest refl (at_field d.cursor magic crc key payload rest four here)

-- The index of the records from position `pos` on: the last live record of a key counts.
abbrev pub index_of : ℕ → List DiskRecord → HashMap IndexEntry → HashMap IndexEntry
index_of pos [] m = m
index_of pos (live j f ∷ rs) m =
    index_of (pos + size (live j f)) rs (HashMap.insert j (index_entry pos j f) m)
index_of pos (dead a b ∷ rs) m = index_of (pos + size (dead a b)) rs m

pub get-index_of :
    (k : Key) (pos : ℕ) (rs : List DiskRecord) (m : HashMap IndexEntry)
    → HashMap.get k (index_of pos rs m) ≡ locate k pos rs (HashMap.get k m)
get-index_of k pos [] m = refl
get-index_of k pos (dead a b ∷ rs) m = get-index_of k (pos + size (dead a b)) rs m
get-index_of k pos (live j f ∷ rs) m =
    get-index_of k (pos + size (live j f)) rs (HashMap.insert j (index_entry pos j f) m)
    ∙ ap (locate k (pos + size (live j f)) rs) (get-insert j k (index_entry pos j f) m)

-- The decoder refuses an empty key.
abbrev pub IsNamed : DiskRecord → Type 0
IsNamed (live key field) = 0 < Key.len key
IsNamed (dead a b) = Unit

pub record Passes (d d' : IndexFromDbDecoder) (r : DiskRecord) (rest : Bytes) : Type 0 where
  pub left : remaining d'.cursor ≡ rest
  pub position : d'.cursor.position ≡ d.cursor.position + size r
  pub index : d'.index ≡ index_of d.cursor.position (r ∷ []) d.index

positive_ne_zero : (n : ℕ) → 0 < n → (n == 0) ≡ false
positive_ne_zero n h = ground arith

module _ (crates : Crates) where
  pub index_record-record_bytes :
      (d : IndexFromDbDecoder) (r : DiskRecord) (rest : Bytes)
      → IsRecord r
      → IsNamed r
      → remaining d.cursor ≡ record_bytes crates r ++ rest
      → (d' : IndexFromDbDecoder) × (index_record d ≡ ok d') × Passes d d' r rest
  unfolding is_deleted index_push behind_record bytes_eq
  index_record-record_bytes d (live key field) rest (short, (valid, small)) named here = (
    record state {
      index =
          HashMap.insert key
            (record {
              key_len = length key.bytes;
              offset = d.cursor.position;
              field_len = length payload;
            })
            d.index;
    },
    index_record-frame d record_magic_number crc key.bytes payload rest refl short small here' false
          refl
        ∙ rw (positive_ne_zero (Key.len key) named),
    record {
      left =
          remaining_behind d record_magic_number crc key.bytes payload rest refl short small here'
            false;
      position = omega arith;
      index =
          ap₂
            (λ a b.
              HashMap.insert key (record { key_len = a; offset = d.cursor.position; field_len = b })
                d.index)
            (sym (mod-eq_of_lt short)) (sym (mod-eq_of_lt small));
    },
  )
    where
      payload : Bytes
      payload = bytes_from_field field

      crc : ℕ
      crc = crates.checksum (crc_input key.bytes payload)

      state : IndexFromDbDecoder
      state = behind_record d false key.bytes (length payload)

      here' :
          remaining d.cursor
          ≡ frame record_magic_number (length key.bytes) (length payload) crc key.bytes payload
            ++ rest
      here' =
          here
          ∙ ap₂ (λ a b. frame record_magic_number a b crc key.bytes payload ++ rest)
              (mod-eq_of_lt short) (mod-eq_of_lt small)
  index_record-record_bytes d (dead key_len field_len) rest (short, small) named here = (
    behind_record d true zero_key (length zero_field),
    index_record-frame d (replicate 4 0) 0 zero_key zero_field rest refl short' small' here' true
        refl,
    record {
      left =
          remaining_behind d (replicate 4 0) 0 zero_key zero_field rest refl short' small' here'
            true;
      position = omega (arith, key_size, field_size);
      index = refl;
    },
  )
    where
      zero_key : Bytes
      zero_key = replicate key_len 0

      zero_field : Bytes
      zero_field = replicate field_len 0

      key_size : length zero_key ≡ key_len
      key_size = length-replicate key_len 0

      field_size : length zero_field ≡ field_len
      field_size = length-replicate field_len 0

      short' : length zero_key < 2 ^ 16
      short' = omega (arith, key_size)

      small' : length zero_field < 2 ^ 32
      small' = omega (arith, field_size)

      here' :
          remaining d.cursor
          ≡ frame (replicate 4 0) (length zero_key) (length zero_field) 0 zero_key zero_field
            ++ rest
      here' =
          here
          ∙ ap₂ (λ a b. frame (replicate 4 0) a b 0 zero_key zero_field ++ rest) (sym key_size)
              (sym field_size)
