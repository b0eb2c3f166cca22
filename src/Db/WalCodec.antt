-- ===== src/Db/WalCodec.antt =====
-- `WalEncoder` and `WalDecoder` of src/db/codec.rs, and `WalEntry` of src/db/wal.rs.
pub mod RoundTrip
pub mod Inputs
pub mod Torn
use peach_db.Base.{ℕ, zero, suc, ◌≡◌, refl, List, [], ◌∷◌, ◌++◌, ltb, ◌==◌, length, if◌then◌else◌}
use peach_db.Base.Words.{Bytes, as_u16, as_u32, to_le_bytes}
use peach_db.Error.{Outcome, ok, err, diverged, unknown_dtype, ◌>>=◌}
use peach_db.Cursor
use peach_db.Cursor.{Cursor, Crates, read_exact}
use peach_db.Dtypes.Key
use peach_db.Dtypes.Key.{Key}
use peach_db.Dtypes.Field.{Field}
use peach_db.Dtypes.Codec.{bytes_from_field, field_from_bytes}

pub data WalEntry : Type 0 where
  set : Key → Field → WalEntry
  delete : Key → WalEntry

pub record WalEncoder : Type 0 where
  pub buffer : Bytes

abbrev pub new_encoder : WalEncoder
new_encoder = record { buffer = [] }

abbrev pub write : Bytes → WalEncoder → WalEncoder
write bytes e = record { buffer = e.buffer ++ bytes }

abbrev pub encode_set_bytes : WalEncoder → WalEncoder
encode_set_bytes e = write (0x1 ∷ []) e

abbrev pub encode_delete_bytes : WalEncoder → WalEncoder
encode_delete_bytes e = write (0x2 ∷ []) e

abbrev pub encode_key : Key → WalEncoder → WalEncoder
encode_key key e = write (Key.as_bytes key) (write (to_le_bytes 2 (as_u16 (Key.len key))) e)

abbrev pub encode_field : Field → WalEncoder → WalEncoder
encode_field field e =
    let payload = bytes_from_field field in
    write payload (write (to_le_bytes 4 (as_u32 (length payload))) e)

unfoldable pub encode_set_entry : Key → Field → WalEncoder → WalEncoder
encode_set_entry key field e = encode_field field (encode_key key (encode_set_bytes e))

unfoldable pub encode_delete_entry : Key → WalEncoder → WalEncoder
encode_delete_entry key e = encode_key key (encode_delete_bytes e)

unfoldable pub encode_wal_entry : WalEntry → WalEncoder → WalEncoder
encode_wal_entry (set key field) e = encode_set_entry key field e
encode_wal_entry (delete key) e = encode_delete_entry key e

abbrev pub encoder_bytes : WalEncoder → Bytes
encoder_bytes e = e.buffer

abbrev pub reset : WalEncoder → WalEncoder
reset e = record { buffer = [] }

pub record WalDecoder : Type 0 where
  pub cursor : Cursor
  pub wal : List WalEntry

abbrev pub new_decoder : Bytes → WalDecoder
new_decoder bytes = record { cursor = Cursor.new bytes; wal = [] }

abbrev pub wal_push : WalEntry → WalDecoder → WalDecoder
wal_push entry d = record d { wal = d.wal ++ entry ∷ [] }

module _ (crates : Crates) where
  unfoldable pub decode_set_entry : WalDecoder → Outcome WalDecoder
  decode_set_entry d = do
    (key_len, c₁) ← crates.read_uint_le 2 d.cursor
    (key_buf, c₂) ← read_exact key_len c₁
    (field_len, c₃) ← crates.read_uint_le 4 c₂
    (field_buf, c₄) ← read_exact field_len c₃
    (field, consumed) ← field_from_bytes field_buf
    ok (wal_push (set (Key.from key_buf) field) (record d { cursor = c₄ }))

  unfoldable pub decode_delete_entry : WalDecoder → Outcome WalDecoder
  decode_delete_entry d = do
    (key_len, c₁) ← crates.read_uint_le 2 d.cursor
    (key_buf, c₂) ← read_exact key_len c₁
    ok (wal_push (delete (Key.from key_buf)) (record d { cursor = c₂ }))

  -- The match on the type byte of an entry.
  unfoldable pub decode_tagged : ℕ → WalDecoder → Outcome WalDecoder
  decode_tagged b d =
      if b == 0x1
      then decode_set_entry d
      else if b == 0x2
      then decode_delete_entry d
      else err (unknown_dtype b)

  unfoldable pub decode_wal_entry : WalDecoder → Outcome WalDecoder
  decode_wal_entry d = do
    (b, c) ← crates.read_uint_le 1 d.cursor
    decode_tagged b (record d { cursor = c })

  -- `while cursor.position() < cursor.get_ref().len()`, on fuel.
  unfoldable pub decode_wal_loop : ℕ → WalDecoder → Outcome WalDecoder
  decode_wal_loop zero d = if ltb d.cursor.position (length d.cursor.inner) then diverged else ok d
  decode_wal_loop (suc fuel) d =
      let rest = (do d' ← decode_wal_entry d; decode_wal_loop fuel d') in
      if ltb d.cursor.position (length d.cursor.inner) then rest else ok d

  -- An entry takes a byte at least, so the length of the input is fuel enough.
  unfoldable pub decode_wal_entries : WalDecoder → Outcome WalDecoder
  decode_wal_entries d = decode_wal_loop (length d.cursor.inner) d

  -- A new decoder, all entries, and `finish`.
  unfoldable pub decode_wal : Bytes → Outcome (List WalEntry)
  decode_wal bytes = do d ← decode_wal_entries (new_decoder bytes); ok d.wal
