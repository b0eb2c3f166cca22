-- ===== src/Db/IndexCodec.antt =====
-- `IndexEncoder` and `IndexDecoder` of src/db/codec.rs, and `IndexEntry` of src/db/db.rs.
pub mod RoundTrip
pub mod Inputs
use peach_db.Base.{ℕ, zero, suc, List, [], ◌∷◌, ◌++◌, ltb, length, if◌then◌else◌}
use peach_db.Base.Words.{Bytes, to_le_bytes}
use peach_db.Base.HashMap
use peach_db.Base.HashMap.{HashMap}
use peach_db.Error.{Outcome, ok, diverged, ◌>>=◌}
use peach_db.Cursor
use peach_db.Cursor.{Cursor, Crates, read_exact}
use peach_db.Dtypes.Key
use peach_db.Dtypes.Key.{Key}

pub record IndexEntry : Type 0 where
  pub offset : ℕ
  pub key_len : ℕ
  pub field_len : ℕ

pub record IndexEncoder : Type 0 where
  pub buffer : Bytes

abbrev pub new_encoder : IndexEncoder
new_encoder = record { buffer = [] }

abbrev pub write : Bytes → IndexEncoder → IndexEncoder
write bytes e = record { buffer = e.buffer ++ bytes }

unfoldable pub encode_index_entry : Key → IndexEntry → IndexEncoder → IndexEncoder
encode_index_entry key index e = write (to_le_bytes 8 index.offset) (
    write (to_le_bytes 4 index.field_len) (write key.bytes (write (to_le_bytes 2 index.key_len) e)))

-- The list gives the order in which the map is iterated.
unfoldable pub encode_index_file : HashMap IndexEntry → IndexEncoder → IndexEncoder
encode_index_file [] e = e
encode_index_file ((key, idx) ∷ index) e = encode_index_file index (encode_index_entry key idx e)

abbrev pub encoder_bytes : IndexEncoder → Bytes
encoder_bytes e = e.buffer

pub record IndexDecoder : Type 0 where
  pub cursor : Cursor
  pub index : HashMap IndexEntry
  pub last_index_key : Bytes
  pub last_idx : ℕ
  pub last_key_len : ℕ
  pub last_field_len : ℕ

abbrev pub new_decoder : Bytes → IndexDecoder
new_decoder bytes = record {
  cursor = Cursor.new bytes;
  index = [];
  last_index_key = [];
  last_idx = 0;
  last_key_len = 0;
  last_field_len = 0;
}

unfoldable pub read_key : IndexDecoder → Outcome IndexDecoder
read_key d = do
  (key, c) ← read_exact d.last_key_len d.cursor
  ok (record d { cursor = c; last_index_key = key })

module _ (crates : Crates) where
  unfoldable pub read_index : IndexDecoder → Outcome IndexDecoder
  read_index d = do
    (index, c) ← crates.read_uint_le 8 d.cursor
    ok (record d { cursor = c; last_idx = index })

  unfoldable pub read_key_len : IndexDecoder → Outcome IndexDecoder
  read_key_len d = do
    (key_len, c) ← crates.read_uint_le 2 d.cursor
    ok (record d { cursor = c; last_key_len = key_len })

  unfoldable pub read_field_len : IndexDecoder → Outcome IndexDecoder
  read_field_len d = do
    (field_len, c) ← crates.read_uint_le 4 d.cursor
    ok (record d { cursor = c; last_field_len = field_len })

  unfoldable pub decode_index_entry : IndexDecoder → Outcome IndexDecoder
  decode_index_entry d₀ = do
    d ← read_key_len d₀ >>= read_key >>= read_field_len >>= read_index
    let entry : IndexEntry = record {
      offset = d.last_idx;
      key_len = d.last_key_len;
      field_len = d.last_field_len;
    }
    ok (record d { index = HashMap.insert (Key.from d.last_index_key) entry d.index })

  -- `while cursor.position() < cursor.get_ref().len()`, on fuel.
  unfoldable pub decode_index_loop : ℕ → IndexDecoder → Outcome IndexDecoder
  decode_index_loop zero d =
      if ltb d.cursor.position (length d.cursor.inner) then diverged else ok d
  decode_index_loop (suc fuel) d =
      let rest = (do d' ← decode_index_entry d; decode_index_loop fuel d') in
      if ltb d.cursor.position (length d.cursor.inner) then rest else ok d

  -- An entry takes 14 bytes at least, so the length of the input is fuel enough.
  unfoldable pub decode_index_file : IndexDecoder → Outcome IndexDecoder
  decode_index_file d = decode_index_loop (length d.cursor.inner) d

  -- A new decoder, the whole file, and `finish`.
  unfoldable pub decode_index : Bytes → Outcome (HashMap IndexEntry)
  decode_index bytes = do d ← decode_index_file (new_decoder bytes); ok d.index
