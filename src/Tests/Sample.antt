-- ===== src/Tests/Sample.antt =====
-- Concrete parameters, keys, values and files.
use peach_db.Base.{◌<◌, ◌^◌, ◌%◌, refl, [], ◌∷◌, arith, length}
use peach_db.Base.Words.{Bytes, from_le_bytes, from_be_bytes}
use peach_db.Base.Int64.{pos, negsuc}
use peach_db.Error.{PeachDbError, ok, ◌>>=◌}
use peach_db.Cursor.{Cursor, Crates, read_exact}
use peach_db.Dtypes.Dtype
use peach_db.Dtypes.Key.{Key}
use peach_db.Dtypes.Field.{Field, primitive, raw, array, integer}
use peach_db.Dtypes.Codec.{bytes_from_field}
use peach_db.Db.WalCodec.RoundTrip.{IsStored}
use peach_db.Db.System.{System}
use peach_db.Db.Database.{Iteration}

-- The low 32 bits of the number that the bytes spell stand in for the checksum.
abbrev pub sample_crates : Crates
sample_crates = record {
  checksum = λ bs. from_le_bytes bs % 2 ^ 32;
  checksum_lt = λ bs. omega arith;
  read_uint_le = λ n c. read_exact n c >>= λ (r : Bytes × Cursor). ok (from_le_bytes r.0, r.1);
  read_uint_le_lem = λ n c. refl;
  read_uint_be = λ n c. read_exact n c >>= λ (r : Bytes × Cursor). ok (from_be_bytes r.0, r.1);
  read_uint_be_lem = λ n c. refl;
}

abbrev pub sample_iteration : Iteration
sample_iteration = record { order = λ V m. m; get-order = λ V m k. refl; order_keeps = λ V m h. h }

abbrev pub sample_text : PeachDbError → Bytes
sample_text e = 101 ∷ []

abbrev pub key_a : Key
key_a = record { bytes = 97 ∷ [] }

abbrev pub key_b : Key
key_b = record { bytes = 98 ∷ 98 ∷ [] }

abbrev pub number : Field
number = primitive (integer (negsuc 6))

abbrev pub blob : Field
blob = raw (1 ∷ 2 ∷ 3 ∷ [])

abbrev pub numbers : Field
numbers = array Dtype.integer (integer (pos 1) ∷ integer (negsuc 0) ∷ [])

pub key_a-short : length key_a.bytes < 2 ^ 16
key_a-short = omega arith

pub key_b-short : length key_b.bytes < 2 ^ 16
key_b-short = omega arith

pub blob-IsStored : IsStored blob
unfolding bytes_from_field
blob-IsStored = (tt, omega arith)

abbrev pub empty_files : System
empty_files = record {
  db_file = [];
  index_file = [];
  wal_file = [];
  fates = [];
  entries = [];
  fields = [];
  index = [];
}
