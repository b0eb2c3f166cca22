-- ===== src/Db/DbDecoder.antt =====
-- `DBDecoder` and `decode` of src/db/codec.rs.
pub mod Inputs
use peach_db.Base.{
  ℕ, zero, suc, Bool, true, false, not, ◌||◌, Option, none, some, [], ◌∷◌, ◌++◌, reverse, ltb, ◌==◌,
  length, replicate, if◌then◌else◌,
}
use peach_db.Base.Words.{Bytes, to_le_bytes, from_le_bytes}
use peach_db.Base.Keys.{bytes_eq}
use peach_db.Base.Utf8.{from_utf8_lossy}
use peach_db.Base.HashMap
use peach_db.Base.HashMap.{HashMap}
use peach_db.Error.{
  Outcome, ok, err, diverged, invalid_magic_bytes, corrupted_record, invalid_finish_call, ◌>>=◌,
}
use peach_db.Cursor
use peach_db.Cursor.{Cursor, Crates, read_exact}
use peach_db.Dtypes.Key
use peach_db.Dtypes.Key.{Key}
use peach_db.Dtypes.Field.{Field}
use peach_db.Dtypes.Codec.{field_from_bytes}
use peach_db.Db.DbEncoder.{
  DbMeta, record_magic_number, db_header_key, db_version_key, db_record_count_key, db_name_key,
}

pub record DbDecoder : Type 0 where
  pub cursor : Cursor
  pub db : HashMap Field
  pub meta : Option DbMeta
  pub deleted : Bool
  pub last_key_len : ℕ
  pub last_field_len : ℕ
  pub last_crc : ℕ
  pub last_key : Bytes
  pub last_field : Bytes

abbrev pub new : Bytes → DbDecoder
new bytes = record {
  cursor = Cursor.new bytes;
  db = [];
  meta = none;
  deleted = false;
  last_key_len = 0;
  last_field_len = 0;
  last_crc = 0;
  last_key = [];
  last_field = [];
}

-- The match on the four bytes of a record's magic number: is the record deleted?
unfoldable pub is_deleted : Bytes → Outcome Bool
is_deleted magic =
    if bytes_eq magic (replicate 4 0)
    then ok true
    else if bytes_eq magic record_magic_number
    then ok false
    else err invalid_magic_bytes

unfoldable pub read_magic_number : DbDecoder → Outcome DbDecoder
read_magic_number d = do
  (magic, c) ← read_exact 4 d.cursor
  deleted ← is_deleted magic
  ok (record d { cursor = c; deleted = deleted })

unfoldable pub read_key_len : DbDecoder → Outcome DbDecoder
read_key_len d = do
  (bytes, c) ← read_exact 2 d.cursor
  ok (record d { cursor = c; last_key_len = from_le_bytes bytes })

unfoldable pub read_field_len : DbDecoder → Outcome DbDecoder
read_field_len d = do
  (bytes, c) ← read_exact 4 d.cursor
  ok (record d { cursor = c; last_field_len = from_le_bytes bytes })

unfoldable pub read_crc : DbDecoder → Outcome DbDecoder
read_crc d = do
  (bytes, c) ← read_exact 4 d.cursor
  ok (record d { cursor = c; last_crc = from_le_bytes bytes })

unfoldable pub read_key : DbDecoder → Outcome DbDecoder
read_key d = do
  (bytes, c) ← read_exact d.last_key_len d.cursor
  ok (record d { cursor = c; last_key = bytes })

unfoldable pub read_field : DbDecoder → Outcome DbDecoder
read_field d = do
  (bytes, c) ← read_exact d.last_field_len d.cursor
  ok (record d { cursor = c; last_field = bytes })

-- What the checksum of a record covers.
abbrev pub header_for_crc : DbDecoder → Bytes
header_for_crc d =
    to_le_bytes 2 d.last_key_len
    ++ (to_le_bytes 4 d.last_field_len ++ (replicate 4 0 ++ (d.last_key ++ d.last_field)))

unfoldable pub is_metadata_key : Bytes → Bool
is_metadata_key key =
    bytes_eq key db_header_key
    || bytes_eq key db_version_key
    || bytes_eq key db_record_count_key
    || bytes_eq key db_name_key

unfoldable pub read_metadata_key : DbDecoder → Outcome DbDecoder
read_metadata_key d = do
  (key, c) ← read_exact 8 d.cursor
  if is_metadata_key key then ok (record d { cursor = c }) else err invalid_magic_bytes

-- `trim_matches(char::from(0))`
trim_start : Bytes → Bytes
trim_start [] = []
trim_start (b ∷ bs) = let rest = trim_start bs in if b == 0 then rest else b ∷ bs

unfoldable pub trim_nul : Bytes → Bytes
unfolding trim_start
trim_nul bs = reverse (trim_start (reverse (trim_start bs)))

module _ (crates : Crates) where
  unfoldable pub check_crc : DbDecoder → Outcome DbDecoder
  check_crc d =
      if crates.checksum (header_for_crc d) == d.last_crc
      then ok d
      else err (corrupted_record "Checksum Mismatch")

  -- What is done with a record that is not deleted.
  unfoldable pub store_live : DbDecoder → Outcome DbDecoder
  store_live d = do
    checked ← check_crc d
    (field, consumed) ← field_from_bytes checked.last_field
    ok (record checked { db = HashMap.insert (Key.from checked.last_key) field checked.db })

  unfoldable pub finish_record : DbDecoder → Outcome DbDecoder
  finish_record d = if not d.deleted then store_live d else ok d

  unfoldable pub decode_db_key_field_pair : DbDecoder → Outcome DbDecoder
  decode_db_key_field_pair d =
      read_magic_number d
      >>= read_key_len
      >>= read_field_len
      >>= read_crc
      >>= read_key
      >>= read_field
      >>= finish_record

  unfoldable pub decode_db_header : DbDecoder → Outcome DbDecoder
  decode_db_header d₀ = do
    d₁ ← read_metadata_key (record d₀ { cursor = Cursor.set_position 0 d₀.cursor })
    (header, c₁) ← crates.read_uint_le 8 d₁.cursor
    d₂ ← read_metadata_key (record d₁ { cursor = c₁ })
    (version, c₂) ← crates.read_uint_le 1 d₂.cursor
    (version_decimal, c₃) ← crates.read_uint_le 1 c₂
    d₃ ← read_metadata_key (record d₂ { cursor = c₃ })
    (record_count, c₄) ← crates.read_uint_le 8 d₃.cursor
    d₄ ← read_metadata_key (record d₃ { cursor = c₄ })
    (db_name, c₅) ← read_exact 64 d₄.cursor
    let meta : DbMeta = record {
      version = version;
      record_count = record_count;
      name = trim_nul (from_utf8_lossy db_name);
    }
    ok (record d₄ { cursor = c₅; meta = some meta })

  -- `while cursor.position() < cursor.get_ref().len()`, on fuel.
  unfoldable pub decode_records : ℕ → DbDecoder → Outcome DbDecoder
  decode_records zero d = if ltb d.cursor.position (length d.cursor.inner) then diverged else ok d
  decode_records (suc fuel) d =
      let rest = (do d' ← decode_db_key_field_pair d; decode_records fuel d') in
      if ltb d.cursor.position (length d.cursor.inner) then rest else ok d

  -- A record takes 14 bytes at least, so the length of the input is fuel enough.
  unfoldable pub decode_db_file : DbDecoder → Outcome DbDecoder
  decode_db_file d = do d' ← decode_db_header d; decode_records (length d'.cursor.inner) d'

-- The match on `self.meta` in `finish`.
with_meta : HashMap Field → Option DbMeta → Outcome (HashMap Field × DbMeta)
with_meta db none = err invalid_finish_call
with_meta db (some meta) = ok (db, meta)

unfoldable pub finish : DbDecoder → Outcome (HashMap Field × DbMeta)
unfolding with_meta
finish d = with_meta d.db d.meta

first_entry : HashMap Field → Outcome (Key × Field)
first_entry [] = err invalid_finish_call
first_entry (entry ∷ rest) = ok entry

unfoldable pub decode : Crates → Bytes → Outcome (Key × Field)
unfolding first_entry
decode crates bytes = do d ← decode_db_key_field_pair crates (new bytes); first_entry d.db
