-- ===== src/Db/WalCodec/Torn.antt =====
-- `WalDecoder` of src/db/codec.rs on a log whose last entry was written in part.
use peach_db.Base.{
  ℕ, zero, suc, ◌<◌, ◌≡◌, refl, sym, ap, ◌∙◌, List, [], ◌∷◌, ◌++◌, arith, length, All,
  length-append,
}
use peach_db.Base.Words.{Bytes, to_le_bytes}
use peach_db.Error.{err, io, unexpected_eof}
use peach_db.Cursor.{Crates, remaining}
use peach_db.Cursor.Laws.{position_before_end}
use peach_db.Cursor.Inputs.{
  Cut-bind, read_exact-Cut, read_uint_le-Cut, read_u8-Cut, cut_nothing_left,
}
use peach_db.Dtypes.Key
use peach_db.Dtypes.Key.{Key}
use peach_db.Dtypes.Field.{Field}
use peach_db.Dtypes.Codec.{bytes_from_field}
use peach_db.Db.WalCodec.{
  WalEntry, set, delete, WalDecoder, new_decoder, wal_push, decode_set_entry, decode_delete_entry,
  decode_tagged, decode_wal_entry, decode_wal_loop, decode_wal_entries, decode_wal,
}
use peach_db.Db.WalCodec.RoundTrip.{
  IsKey, IsStored, IsEntry, key_bytes, field_bytes, entry_bytes, log_bytes, entry_shrinks,
  entry_before_end, decode_wal_entry-entry_bytes,
}
use mathlib.Core.List.{append_assoc, append-nil}
use native.Mathlib.Nat.{mod-eq_of_lt}

module _ (crates : Crates) (b : ℕ) (back : Bytes) where
  torn_set :
      (d : WalDecoder) (key : Key) (field : Field)
      → IsKey key
      → IsStored field
      → remaining d.cursor ++ b ∷ back ≡ key_bytes key ++ field_bytes field
      → decode_set_entry crates d ≡ err (io unexpected_eof)
  unfolding decode_set_entry
  torn_set d key field short (valid, small) cut =
      Cut-bind _ (read_uint_le-Cut crates d.cursor 2 (Key.len key) _ (b ∷ back) short cut') λ c₁ h₁.
        Cut-bind _
          (read_exact-Cut c₁ (Key.len key) key.bytes (field_bytes field) (b ∷ back) refl h₁)
          λ c₂ h₂.
            Cut-bind _
              (read_uint_le-Cut crates c₂ 4 (length payload) payload (b ∷ back) small
                (h₂ ∙ rw (mod-eq_of_lt small)))
              λ c₃ h₃.
                Cut-bind _
                  (read_exact-Cut c₃ (length payload) payload [] (b ∷ back) refl
                    (h₃ ∙ sym (append-nil payload)))
                  λ c₄ h₄. absurd (cut_nothing_left c₄ b back h₄)
    where
      payload : Bytes
      payload = bytes_from_field field

      cut' :
          remaining d.cursor ++ b ∷ back
          ≡ to_le_bytes 2 (Key.len key) ++ (key.bytes ++ field_bytes field)
      cut' = cut ∙ append_assoc _ key.bytes (field_bytes field) ∙ rw (mod-eq_of_lt short)

  torn_delete :
      (d : WalDecoder) (key : Key)
      → IsKey key
      → remaining d.cursor ++ b ∷ back ≡ key_bytes key
      → decode_delete_entry crates d ≡ err (io unexpected_eof)
  unfolding decode_delete_entry
  torn_delete d key short cut =
      Cut-bind _
        (read_uint_le-Cut crates d.cursor 2 (Key.len key) key.bytes (b ∷ back) short
          (cut ∙ rw (mod-eq_of_lt short)))
        λ c₁ h₁.
          Cut-bind _
            (read_exact-Cut c₁ (Key.len key) key.bytes [] (b ∷ back) refl
              (h₁ ∙ sym (append-nil key.bytes)))
            λ c₂ h₂. absurd (cut_nothing_left c₂ b back h₂)

  torn_entry :
      (d : WalDecoder) (entry : WalEntry)
      → IsEntry entry
      → remaining d.cursor ++ b ∷ back ≡ entry_bytes entry
      → decode_wal_entry crates d ≡ err (io unexpected_eof)
  unfolding decode_wal_entry decode_tagged
  torn_entry d (set key field) (short, stored) cut =
      Cut-bind _ (read_u8-Cut crates d.cursor 1 _ (b ∷ back) cut)
        λ c h. torn_set (record d { cursor = c }) key field short stored h
  torn_entry d (delete key) short cut =
      Cut-bind _ (read_u8-Cut crates d.cursor 2 _ (b ∷ back) cut)
        λ c h. torn_delete (record d { cursor = c }) key short h

  torn_loop :
      (entries : List WalEntry) (entry : WalEntry) (f : ℕ) (front : Bytes) (fuel : ℕ)
      (d : WalDecoder)
      → All IsEntry entries
      → IsEntry entry
      → length (log_bytes entries) < fuel
      → remaining d.cursor ≡ log_bytes entries ++ f ∷ front
      → (f ∷ front) ++ b ∷ back ≡ entry_bytes entry
      → decode_wal_loop crates fuel d ≡ err (io unexpected_eof)
  unfolding decode_wal_loop
  torn_loop entries entry f front zero d hs valid enough here cut = absurd (omega arith)
  torn_loop [] entry f front (suc fuel) d hs valid enough here cut = rw (
    position_before_end d.cursor f front here,
    torn_entry d entry valid (ap (λ t. t ++ b ∷ back) here ∙ cut),
  )
  torn_loop (e ∷ entries) entry f front (suc fuel) d (h, hs) valid enough here cut =
      let here' = here ∙ append_assoc (entry_bytes e) (log_bytes entries) (f ∷ front) in
      let (c, read, rest) =
        decode_wal_entry-entry_bytes crates d e (log_bytes entries ++ f ∷ front) h here' in
      rw (entry_before_end d.cursor e (log_bytes entries ++ f ∷ front) here', read)
        (torn_loop entries entry f front fuel (wal_push e (record d { cursor = c })) hs valid
          (omega (arith, entry_shrinks e entries)) rest cut)

-- A log of whole well-formed entries behind which a proper, non-empty part of one more entry stands cannot be
-- read: the decoder answers `UnexpectedEof` and keeps none of the whole entries.
pub decode_wal_torn :
    (crates : Crates) (entries : List WalEntry) (entry : WalEntry) (f : ℕ) (front : Bytes) (b : ℕ)
    (back : Bytes)
    → All IsEntry entries
    → IsEntry entry
    → (f ∷ front) ++ b ∷ back ≡ entry_bytes entry
    → decode_wal crates (log_bytes entries ++ f ∷ front) ≡ err (io unexpected_eof)
unfolding decode_wal decode_wal_entries
decode_wal_torn crates entries entry f front b back hs valid cut = rw (
    torn_loop crates b back entries entry f front (length (log_bytes entries ++ f ∷ front))
      (new_decoder (log_bytes entries ++ f ∷ front)) hs valid
      (omega (arith, length-append (log_bytes entries) (f ∷ front))) refl cut)
