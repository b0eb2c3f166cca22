-- ===== src/Db/WalCodec/RoundTrip.antt =====
-- `WalEncoder` and `WalDecoder` of src/db/codec.rs on the logs that the code writes.
use peach_db.Base.{
  ℕ, zero, suc, ◌≤◌, ◌<◌, ◌^◌, ◌≡◌, refl, ◌∙◌, List, [], ◌∷◌, ◌++◌, arith, length, All,
  length-append, true, ltb,
}
use peach_db.Base.Words.{Bytes, as_u16, as_u32, to_le_bytes}
use peach_db.Error.{ok}
use peach_db.Cursor.{Cursor, Crates, remaining, advance}
use peach_db.Cursor.Laws.{
  ReadsBytes, ReadsBytes-le, read_u8_here, remaining_tail, position_before_end, position_at_end,
}
use peach_db.Dtypes.Key
use peach_db.Dtypes.Key.{Key}
use peach_db.Dtypes.Field.{Field}
use peach_db.Dtypes.Codec.{bytes_from_field}
use peach_db.Dtypes.Codec.Laws.{IsField}
use peach_db.Dtypes.Codec.RoundTrip.{field_from_bytes-bytes_from_field}
use peach_db.Db.WalCodec.{
  WalEntry, set, delete, WalEncoder, encode_wal_entry, encode_set_entry, encode_delete_entry,
  WalDecoder, new_decoder, wal_push, decode_set_entry, decode_delete_entry, decode_tagged,
  decode_wal_entry, decode_wal_loop, decode_wal_entries, decode_wal,
}
use mathlib.Core.List.{append_assoc, append-nil}
use native.Mathlib.Nat.{mod-eq_of_lt}

-- A key whose length fits its two bytes.
abbrev pub IsKey : Key → Type 0
IsKey key = Key.len key < 2 ^ 16

-- A value that is well formed and whose bytes fit their u32 length.
abbrev pub IsStored : Field → Type 0
IsStored field = IsField field × (length (bytes_from_field field) < 2 ^ 32)

abbrev pub IsEntry : WalEntry → Type 0
IsEntry (set key field) = IsKey key × IsStored field
IsEntry (delete key) = IsKey key

-- The key of an entry with its length, and the value with its length.
abbrev pub key_bytes : Key → Bytes
key_bytes key = to_le_bytes 2 (as_u16 (Key.len key)) ++ key.bytes

abbrev pub field_bytes : Field → Bytes
field_bytes field =
    to_le_bytes 4 (as_u32 (length (bytes_from_field field))) ++ bytes_from_field field

abbrev pub entry_bytes : WalEntry → Bytes
entry_bytes (set key field) = 0x1 ∷ (key_bytes key ++ field_bytes field)
entry_bytes (delete key) = 0x2 ∷ key_bytes key

-- The file after a sequence of appends.
abbrev pub log_bytes : List WalEntry → Bytes
log_bytes [] = []
log_bytes (entry ∷ entries) = entry_bytes entry ++ log_bytes entries

-- The encoder appends the bytes of the entry.
pub encode_wal_entry-buffer :
    (entry : WalEntry) (e : WalEncoder)
    → (encode_wal_entry entry e).buffer ≡ e.buffer ++ entry_bytes entry
unfolding encode_wal_entry encode_set_entry encode_delete_entry
encode_wal_entry-buffer (set key field) e = simp append_assoc
encode_wal_entry-buffer (delete key) e = simp append_assoc

pub entry_before_end :
    (c : Cursor) (entry : WalEntry) (rest : Bytes)
    → remaining c ≡ entry_bytes entry ++ rest
    → ltb c.position (length c.inner) ≡ true
entry_before_end c (set key field) rest here = position_before_end c 1 _ here
entry_before_end c (delete key) rest here = position_before_end c 2 _ here

pub entry_shrinks :
    (entry : WalEntry) (entries : List WalEntry)
    → length (log_bytes entries) < length (log_bytes (entry ∷ entries))
entry_shrinks (set key field) entries =
    omega (arith, length-append (entry_bytes (set key field)) (log_bytes entries))
entry_shrinks (delete key) entries =
    omega (arith, length-append (entry_bytes (delete key)) (log_bytes entries))

module _ (crates : Crates) where
  -- The length and the bytes of a key, which `decode_set_entry` and `decode_delete_entry` read.
  reads_key :
      (c : Cursor) (key : Key) (rest : Bytes)
      → IsKey key
      → remaining c ≡ key_bytes key ++ rest
      → ReadsBytes crates.read_uint_le 2 c key.bytes rest
  reads_key c key rest short here =
      ReadsBytes-le crates 2 c key.bytes rest short
        (here ∙ append_assoc _ key.bytes rest ∙ rw (mod-eq_of_lt short))

  reads_field :
      (c : Cursor) (field : Field) (rest : Bytes)
      → IsStored field
      → remaining c ≡ field_bytes field ++ rest
      → ReadsBytes crates.read_uint_le 4 c (bytes_from_field field) rest
  reads_field c field rest (valid, small) here =
      ReadsBytes-le crates 4 c (bytes_from_field field) rest small
        (here ∙ append_assoc _ (bytes_from_field field) rest ∙ rw (mod-eq_of_lt small))

  -- An entry that stands next is read, whatever follows.
  pub decode_wal_entry-entry_bytes :
      (d : WalDecoder) (entry : WalEntry) (rest : Bytes)
      → IsEntry entry
      → remaining d.cursor ≡ entry_bytes entry ++ rest
      → (c : Cursor) × (decode_wal_entry crates d ≡ ok (wal_push entry (record d { cursor = c })))
        × (remaining c ≡ rest)
  unfolding decode_wal_entry decode_tagged decode_set_entry decode_delete_entry
  decode_wal_entry-entry_bytes d (set key field) rest (short, stored) here = (
    f.after,
    rw (
      read_u8_here crates d.cursor 1 _ here,
      k.size,
      k.content,
      f.size,
      f.content,
      field_from_bytes-bytes_from_field field stored.0,
    ),
    f.left,
  )
    where
      k :
          ReadsBytes crates.read_uint_le 2
            (advance 1 d.cursor)
            key.bytes
            (field_bytes field ++ rest)
      k = reads_key (advance 1 d.cursor) key (field_bytes field ++ rest) short (
          remaining_tail crates d.cursor 1 _ here
          ∙ append_assoc (key_bytes key) (field_bytes field) rest)

      f : ReadsBytes crates.read_uint_le 4 k.after (bytes_from_field field) rest
      f = reads_field k.after field rest stored k.left
  decode_wal_entry-entry_bytes d (delete key) rest short here =
      (k.after, rw (read_u8_here crates d.cursor 2 _ here, k.size, k.content), k.left)
    where
      k : ReadsBytes crates.read_uint_le 2 (advance 1 d.cursor) key.bytes rest
      k = reads_key (advance 1 d.cursor) key rest short (remaining_tail crates d.cursor 2 _ here)

  decode_wal_loop-log_bytes :
      (entries : List WalEntry) (fuel : ℕ) (d : WalDecoder)
      → All IsEntry entries
      → length (log_bytes entries) ≤ fuel
      → remaining d.cursor ≡ log_bytes entries
      → (c : Cursor) × (decode_wal_loop crates fuel d
          ≡ ok (record { cursor = c; wal = d.wal ++ entries }))
  unfolding decode_wal_loop
  decode_wal_loop-log_bytes [] zero d h enough here =
      (d.cursor, rw (position_at_end d.cursor here, append-nil))
  decode_wal_loop-log_bytes [] (suc fuel) d h enough here =
      (d.cursor, rw (position_at_end d.cursor here, append-nil))
  decode_wal_loop-log_bytes (entry ∷ entries) zero d h enough here =
      absurd (omega (arith, entry_shrinks entry entries))
  decode_wal_loop-log_bytes (entry ∷ entries) (suc fuel) d (valid, hs) enough here =
      let (c, e, left) = decode_wal_entry-entry_bytes d entry (log_bytes entries) valid here in
      let (c', e') =
        decode_wal_loop-log_bytes entries fuel (wal_push entry (record d { cursor = c })) hs
          (omega (arith, entry_shrinks entry entries)) left in
      (c', rw (entry_before_end d.cursor entry (log_bytes entries) here, e) (e' ∙ rw append_assoc))

  -- A log of well-formed entries is read back whole.
  pub decode_wal-log_bytes :
      (entries : List WalEntry)
      → All IsEntry entries
      → decode_wal crates (log_bytes entries) ≡ ok entries
  unfolding decode_wal decode_wal_entries
  decode_wal-log_bytes entries h =
      let (c, e) =
        decode_wal_loop-log_bytes entries (length (log_bytes entries))
          (new_decoder (log_bytes entries)) h (omega arith) refl in
      rw e
