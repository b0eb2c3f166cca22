-- ===== src/Db/IndexFromDb.antt =====
-- `IndexFromDBDecoder` of src/db/codec.rs: the index, rebuilt from the `.db` file.
pub mod Inputs
use peach_db.Base.{ℕ, zero, suc, Bool, false, [], ltb, ◌==◌, length, if◌then◌else◌}
use peach_db.Base.Words.{Bytes, from_le_bytes}
use peach_db.Base.HashMap
use peach_db.Base.HashMap.{HashMap}
use peach_db.Error.{Outcome, ok, err, diverged, invalid_index_entry, ◌>>=◌}
use peach_db.Cursor
use peach_db.Cursor.{Cursor, Crates, read_exact}
use peach_db.Dtypes.Key
use peach_db.Dtypes.Key.{Key}
use peach_db.Db.DbDecoder.{is_deleted}
use peach_db.Db.IndexCodec.{IndexEntry}

pub record IndexFromDbDecoder : Type 0 where
  pub cursor : Cursor
  pub index : HashMap IndexEntry
  pub last_key_len : ℕ
  pub last_field_len : ℕ
  pub last_key : Bytes
  pub last_index : ℕ
  pub deleted : Bool

abbrev pub new : Bytes → IndexFromDbDecoder
new bytes = record {
  cursor = Cursor.new bytes;
  index = [];
  last_key_len = 0;
  last_field_len = 0;
  last_key = [];
  last_index = 0;
  deleted = false;
}

-- `cursor.set_position(cursor.position() + n)`, which may pass the end of the input.
abbrev pub skip : ℕ → IndexFromDbDecoder → IndexFromDbDecoder
skip n d = record d { cursor = Cursor.advance n d.cursor }

unfoldable pub set_last_index : IndexFromDbDecoder → Outcome IndexFromDbDecoder
set_last_index d = ok (record d { last_index = d.cursor.position })

unfoldable pub read_magic_number : IndexFromDbDecoder → Outcome IndexFromDbDecoder
read_magic_number d = do
  (magic, c) ← read_exact 4 d.cursor
  deleted ← is_deleted magic
  ok (record d { cursor = c; deleted = deleted })

unfoldable pub read_key_len : IndexFromDbDecoder → Outcome IndexFromDbDecoder
read_key_len d = do
  (bytes, c) ← read_exact 2 d.cursor
  ok (record d { cursor = c; last_key_len = from_le_bytes bytes })

unfoldable pub read_field_len : IndexFromDbDecoder → Outcome IndexFromDbDecoder
read_field_len d = do
  (bytes, c) ← read_exact 4 d.cursor
  ok (record d { cursor = c; last_field_len = from_le_bytes bytes })

unfoldable pub skip_crc : IndexFromDbDecoder → Outcome IndexFromDbDecoder
skip_crc d = ok (skip 4 d)

unfoldable pub read_key : IndexFromDbDecoder → Outcome IndexFromDbDecoder
read_key d = do
  (bytes, c) ← read_exact d.last_key_len d.cursor
  ok (record d { cursor = c; last_key = bytes })

unfoldable pub skip_field : IndexFromDbDecoder → Outcome IndexFromDbDecoder
skip_field d = ok (skip d.last_field_len d)

unfoldable pub skip_metadata_key : IndexFromDbDecoder → Outcome IndexFromDbDecoder
skip_metadata_key d = ok (skip 8 d)

unfoldable pub index_push : IndexFromDbDecoder → Outcome IndexFromDbDecoder
index_push d =
    if d.deleted
    then ok d
    else if length d.last_key == 0
    then err invalid_index_entry
    else ok (record d {
      index =
          HashMap.insert (Key.from d.last_key)
            (record {
              key_len = d.last_key_len;
              offset = d.last_index;
              field_len = d.last_field_len;
            })
            d.index;
    })

unfoldable pub index_record : IndexFromDbDecoder → Outcome IndexFromDbDecoder
index_record d =
    set_last_index d
    >>= read_magic_number
    >>= read_key_len
    >>= read_field_len
    >>= skip_crc
    >>= read_key
    >>= skip_field
    >>= index_push

module _ (crates : Crates) where
  unfoldable pub decode_db_header : IndexFromDbDecoder → Outcome IndexFromDbDecoder
  decode_db_header d₀ = do
    d₁ ← skip_metadata_key (record d₀ { cursor = Cursor.set_position 0 d₀.cursor })
    (header, c₁) ← crates.read_uint_le 8 d₁.cursor
    d₂ ← skip_metadata_key (record d₁ { cursor = c₁ })
    (version, c₂) ← crates.read_uint_le 1 d₂.cursor
    (version_decimal, c₃) ← crates.read_uint_le 1 c₂
    d₃ ← skip_metadata_key (record d₂ { cursor = c₃ })
    (record_count, c₄) ← crates.read_uint_le 8 d₃.cursor
    d₄ ← skip_metadata_key (record d₃ { cursor = c₄ })
    ok (skip 64 d₄)

  -- `while cursor.position() < cursor.get_ref().len()`, on fuel.
  unfoldable pub index_records : ℕ → IndexFromDbDecoder → Outcome IndexFromDbDecoder
  index_records zero d = if ltb d.cursor.position (length d.cursor.inner) then diverged else ok d
  index_records (suc fuel) d =
      let rest = (do d' ← index_record d; index_records fuel d') in
      if ltb d.cursor.position (length d.cursor.inner) then rest else ok d

  -- A record takes 14 bytes at least, so the length of the input is fuel enough.
  unfoldable pub decode_index_from_file : IndexFromDbDecoder → Outcome IndexFromDbDecoder
  decode_index_from_file d = do d' ← decode_db_header d; index_records (length d'.cursor.inner) d'

  -- A new decoder, the whole file, and `finish`.
  unfoldable pub index_from_db : Bytes → Outcome (HashMap IndexEntry)
  index_from_db bytes = do d ← decode_index_from_file (new bytes); ok d.index
