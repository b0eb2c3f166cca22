-- ===== src/Db/Records/Maps.antt =====
-- `DBEncoder::encode_db_file` of src/db/codec.rs, and then the decoder.
use peach_db.Base.{
  ◌<◌, ◌^◌, ◌≡◌, refl, sym, ap, ◌∙◌, Option, some, none, List, [], ◌∷◌, ◌++◌, All, length,
  Bool-cases, inl, inr,
}
use peach_db.Base.Utf8.{from_utf8_lossy}
use peach_db.Base.HashMap
use peach_db.Base.HashMap.{HashMap, key_eq, key_eq→eq}
use peach_db.Base.HashMap.Laws.{get-insert}
use peach_db.Error.{ok, ◌>>=◌}
use peach_db.Cursor.{Crates}
use peach_db.Dtypes.Key.{Key}
use peach_db.Dtypes.Field.{Field}
use peach_db.Db.WalCodec.RoundTrip.{IsKey, IsStored}
use peach_db.Db.DbEncoder
use peach_db.Db.DbEncoder.{DbEncoder, DbMeta, reset, encode_pairs, encode_db_header, encode_db_file}
use peach_db.Db.DbDecoder
use peach_db.Db.DbDecoder.{decode_db_file, finish, trim_nul}
use peach_db.Db.Records.{DiskRecord, live, IsRecord, record_bytes, records_bytes, apply_records}
use peach_db.Db.Records.Header.{name_field, encode_db_header-bytes}
use peach_db.Db.Records.Encode.{encode_db_key_field_pair-live}
use peach_db.Db.Records.File.{decode_db_file-records_bytes}
use mathlib.Core.List.{append_assoc, append-nil}

-- A record for every entry.
abbrev records_of : HashMap Field → List DiskRecord
records_of [] = []
records_of ((key, field) ∷ m) = live key field ∷ records_of m

-- The key and the value fit a record.
abbrev pub IsStorable : Key × Field → Type 0
IsStorable (key, field) = IsKey key × IsStored field

records_of-IsRecord : (m : HashMap Field) → All IsStorable m → All IsRecord (records_of m)
records_of-IsRecord [] hs = tt
records_of-IsRecord ((key, field) ∷ m) (h, hs) = (h, records_of-IsRecord m hs)

abbrev or_held : Option Field → Option Field → Option Field
or_held none held = held
or_held (some field) held = some field

get-records_of :
    (k : Key) (m db : HashMap Field)
    → HashMap.IsDistinct m
    → HashMap.get k (apply_records db (records_of m)) ≡ or_held (HashMap.get k m) (HashMap.get k db)
unfolding HashMap.get
get-records_of k [] db distinct = refl
get-records_of k ((j, field) ∷ m) db (fresh, distinct) =
    get-records_of k m (HashMap.insert j field db) distinct
    ∙ rw (get-insert j k field db) (elim (Bool-cases (key_eq j k)) [
      | inl same ↦ rw (same, ap (λ t. HashMap.get t m) (sym (key_eq→eq j k same)), fresh)
      | inr other ↦ rw other
    ])

module _ (crates : Crates) where
  encode_pairs-records_bytes :
      (m : HashMap Field) (e : DbEncoder)
      → (end : DbEncoder) × (encode_pairs crates m e ≡ ok end)
        × (end.buffer ≡ e.buffer ++ records_bytes crates (records_of m))
  unfolding encode_pairs
  encode_pairs-records_bytes [] e = (e, refl, sym (append-nil e.buffer))
  encode_pairs-records_bytes ((key, field) ∷ m) e =
      let next : DbEncoder = record {
        buffer = e.buffer ++ record_bytes crates (live key field);
        field_start_position = length e.buffer;
      } in
      let (end, done, bytes) = encode_pairs-records_bytes m next in
      (
        end,
        rw (encode_db_key_field_pair-live crates key field e) done,
        bytes ∙ append_assoc e.buffer (record_bytes crates (live key field)) _,
      )

  -- An encoder that is reset, whatever it has encoded before, encodes every map of values whose keys
  -- are shorter than 2 ^ 16 bytes and whose values are well formed and shorter than 2 ^ 32 bytes, in any
  -- order of the map: no call panics, and the file decodes to a map with the same lookups, with the
  -- version 1, the count and the name of the header.
  pub decode_db_file-encode_db_file :
      (e : DbEncoder) (fields : HashMap Field) (meta : DbMeta)
      → HashMap.IsDistinct fields
      → All IsStorable fields
      → meta.record_count < 2 ^ 64
      → (end : DbEncoder) × (db : HashMap Field) × (encode_db_file crates fields meta (reset e)
          ≡ ok end)
        × ((decode_db_file crates (DbDecoder.new (DbEncoder.finish end)) >>= finish)
            ≡ ok (
              db,
              record {
                version = 1;
                record_count = meta.record_count;
                name = trim_nul (from_utf8_lossy (name_field meta.name));
              },
            ))
        × ((k : Key) → HashMap.get k db ≡ HashMap.get k fields)
  unfolding encode_db_file HashMap.get
  decode_db_file-encode_db_file e fields meta distinct storable fits =
      let (end, done, bytes) =
        encode_pairs-records_bytes fields (encode_db_header meta (reset e)) in
      (
        end,
        apply_records [] (records_of fields),
        done,
        rw (bytes, encode_db_header-bytes meta (reset e))
            (decode_db_file-records_bytes crates meta.record_count meta.name (records_of fields)
              fits (records_of-IsRecord fields storable)),
        λ k. get-records_of k fields [] distinct ∙ or_held-none (HashMap.get k fields),
      )
    where
      or_held-none : (o : Option Field) → or_held o none ≡ o
      or_held-none none = refl
      or_held-none (some field) = refl
