-- ===== src/Tests/Codecs.antt =====
-- The codecs at concrete values.
use peach_db.Base.{
  ℕ, ◌+◌, ◌≡◌, ◌≢◌, ◌≤◌, ◌<◌, ◌^◌, refl, List, [], ◌∷◌, ◌++◌, some, arith, length, All,
}
use peach_db.Base.Words.{Bytes, to_le_bytes}
use peach_db.Base.HashMap
use peach_db.Base.HashMap.{HashMap}
use peach_db.Base.Utf8.{from_utf8_lossy}
use peach_db.Base.Int64.{pos, negsuc}
use peach_db.Error.{ok, ◌>>=◌}
use peach_db.Dtypes.Dtype
use peach_db.Dtypes.Key.{Key}
use peach_db.Dtypes.Field
use peach_db.Dtypes.Field.{Field, Primitive, primitive, integer}
use peach_db.Dtypes.Codec.{bytes_from_primitive, bytes_from_field, field_from_bytes}
use peach_db.Dtypes.Codec.RoundTrip.{field_from_bytes-bytes_from_field}
use peach_db.Dtypes.Codec.Inputs.{field_from_bytes-le}
use peach_db.Db.WalCodec.{WalEntry, set, delete, decode_wal}
use peach_db.Db.WalCodec.RoundTrip.{log_bytes, decode_wal-log_bytes}
use peach_db.Db.DbEncoder
use peach_db.Db.DbEncoder.{DbEncoder, DbMeta, reset, encode_db_header, encode_db_file}
use peach_db.Db.Records.Maps.{decode_db_file-encode_db_file}
use peach_db.Tests.Durability.{number-IsStored}
use peach_db.Db.DbDecoder
use peach_db.Db.DbDecoder.{DbDecoder, decode, decode_db_file, finish, trim_nul}
use peach_db.Db.Records.{DiskRecord, live, dead, records_bytes, apply_records}
use peach_db.Db.Records.Header.{header_bytes, name_field}
use peach_db.Db.Records.File.{decode_db_file-records_bytes}
use peach_db.Db.IndexCodec.{IndexEntry, encode_index_file, decode_index}
use peach_db.Db.IndexCodec.RoundTrip.{get-decode_index}
use peach_db.Tests.Sample.{
  sample_crates, key_a, key_b, blob, number, numbers, key_a-short, key_b-short, blob-IsStored,
}

-- The bytes of -7, of an array, and a text that announces five bytes and has one.
number_bytes : bytes_from_field number ≡ 1 ∷ 249 ∷ 255 ∷ 255 ∷ 255 ∷ 255 ∷ 255 ∷ 255 ∷ 255 ∷ []
unfolding bytes_from_field bytes_from_primitive Field.dtype Dtype.as_byte
    peach_db.Dtypes.Field.dtype_of to_le_bytes peach_db.Base.Int64.i64_bits
number_bytes = refl

field_from_bytes-bytes_from_field_example :
    field_from_bytes (bytes_from_field numbers) ≡ ok (numbers, length (bytes_from_field numbers))
unfolding peach_db.Dtypes.Field.dtype_of
field_from_bytes-bytes_from_field_example =
    field_from_bytes-bytes_from_field numbers
      (tt, omega arith, ((refl, omega arith), ((refl, omega arith), tt)))

field_from_bytes-le_example : length (bytes_from_field numbers) ≤ length (bytes_from_field numbers)
field_from_bytes-le_example =
    field_from_bytes-le (bytes_from_field numbers) numbers (length (bytes_from_field numbers))
      field_from_bytes-bytes_from_field_example

-- The log.
abbrev entries : List WalEntry
entries = set key_a blob ∷ delete key_b ∷ []

decode_wal-log_bytes_example : decode_wal sample_crates (log_bytes entries) ≡ ok entries
decode_wal-log_bytes_example =
    decode_wal-log_bytes sample_crates entries ((key_a-short, blob-IsStored), (key_b-short, tt))

-- The files.
abbrev disk : List DiskRecord
disk = live key_a blob ∷ dead 2 10 ∷ live key_b blob ∷ []

abbrev disk_name : Bytes
disk_name = 100 ∷ 98 ∷ []

decode_db_file-records_bytes_example :
    (decode_db_file sample_crates
        (DbDecoder.new (header_bytes 3 disk_name ++ records_bytes sample_crates disk))
      >>= finish)
    ≡ ok (
      apply_records [] disk,
      record {
        version = 1;
        record_count = 3;
        name = trim_nul (from_utf8_lossy (name_field disk_name));
      },
    )
decode_db_file-records_bytes_example =
    decode_db_file-records_bytes sample_crates 3 disk_name disk (omega arith) (
      (key_a-short, blob-IsStored),
      ((omega arith, omega arith), ((key_b-short, blob-IsStored), tt)),
    )

-- A map of values, and an encoder that has encoded a header before.
abbrev stored_map : HashMap Field
stored_map = (key_b, number) ∷ (key_a, blob) ∷ []

abbrev stored_meta : DbMeta
stored_meta = record { version = 1; record_count = 2; name = disk_name }

stored_map-IsDistinct : HashMap.IsDistinct stored_map
unfolding HashMap.get peach_db.Base.Keys.bytes_eq
stored_map-IsDistinct = (refl, (refl, tt))

abbrev used_encoder : DbEncoder
used_encoder = encode_db_header stored_meta DbEncoder.new

decode_db_file-encode_db_file_example :
    (end : DbEncoder) × (db : HashMap Field) × (encode_db_file sample_crates stored_map stored_meta
        (reset used_encoder)
      ≡ ok end)
    × ((decode_db_file sample_crates (DbDecoder.new (DbEncoder.finish end)) >>= finish)
        ≡ ok (
          db,
          record {
            version = 1;
            record_count = 2;
            name = trim_nul (from_utf8_lossy (name_field disk_name));
          },
        ))
    × ((k : Key) → HashMap.get k db ≡ HashMap.get k stored_map)
decode_db_file-encode_db_file_example =
    decode_db_file-encode_db_file sample_crates used_encoder stored_map stored_meta
      stored_map-IsDistinct ((key_b-short, number-IsStored), ((key_a-short, blob-IsStored), tt))
      (omega arith)

abbrev index : HashMap IndexEntry
index =
    (key_b, record { offset = 124; key_len = 2; field_len = 4 })
    ∷ (key_a, record { offset = 144; key_len = 1; field_len = 4 })
    ∷ []

index-IsDistinct : HashMap.IsDistinct index
unfolding HashMap.get peach_db.Base.Keys.bytes_eq
index-IsDistinct = (refl, (refl, tt))

get-decode_index_example :
    (decoded : HashMap IndexEntry) × (decode_index sample_crates
        (encode_index_file index (record { buffer = [] })).buffer
      ≡ ok decoded)
    × ((key : Key) → HashMap.get key decoded ≡ HashMap.get key index)
get-decode_index_example = get-decode_index sample_crates index index-IsDistinct (
  (refl, omega arith, omega arith, omega arith),
  ((refl, omega arith, omega arith, omega arith), tt),
)
