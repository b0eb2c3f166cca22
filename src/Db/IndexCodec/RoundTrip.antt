-- ===== src/Db/IndexCodec/RoundTrip.antt =====
-- `IndexEncoder` and `IndexDecoder` of src/db/codec.rs, one after the other.
use peach_db.Base.{
  Option, some, none, ℕ, zero, suc, ◌≤◌, ◌<◌, ◌^◌, ◌≡◌, refl, sym, ap, ◌∙◌, true, [], ◌∷◌, ◌++◌,
  arith, length, length-append, ltb, All,
}
use peach_db.Base.Words.{Bytes, to_le_bytes, length-to_le_bytes}
use peach_db.Base.HashMap
use peach_db.Base.HashMap.{HashMap, key_eq, key_eq→eq}
use peach_db.Base.HashMap.Laws.{get-insert}
use peach_db.Error.{ok}
use peach_db.Cursor.{Cursor, Crates, remaining, advance}
use peach_db.Cursor.Laws.{
  read_exact_here, read_uint_le-to_le_bytes, remaining_next, position_before_end, position_at_end,
}
use peach_db.Dtypes.Key
use peach_db.Dtypes.Key.{Key}
use peach_db.Db.IndexCodec.{
  IndexEntry, IndexEncoder, new_encoder, encode_index_entry, encode_index_file, IndexDecoder,
  new_decoder, read_key, read_index, read_key_len, read_field_len, decode_index_entry,
  decode_index_loop, decode_index_file, decode_index,
}
use mathlib.Core.List.{append_assoc, append-nil}

-- An entry whose numbers fit their bytes, with the length of its key.
abbrev pub IsIndexEntry : Key × IndexEntry → Type 0
IsIndexEntry (key, e) =
    (e.key_len ≡ Key.len key) × (e.key_len < 2 ^ 16) × (e.field_len < 2 ^ 32) × (e.offset < 2 ^ 64)

abbrev pub index_entry_bytes : Key × IndexEntry → Bytes
index_entry_bytes (key, e) =
    to_le_bytes 2 e.key_len ++ (key.bytes ++ (to_le_bytes 4 e.field_len ++ to_le_bytes 8 e.offset))

abbrev pub index_bytes : HashMap IndexEntry → Bytes
index_bytes [] = []
index_bytes (e ∷ es) = index_entry_bytes e ++ index_bytes es

pub encode_index_file-bytes :
    (index : HashMap IndexEntry) (e : IndexEncoder)
    → (encode_index_file index e).buffer ≡ e.buffer ++ index_bytes index
unfolding encode_index_file encode_index_entry
encode_index_file-bytes [] e = sym (append-nil e.buffer)
encode_index_file-bytes ((key, idx) ∷ index) e =
    encode_index_file-bytes index (encode_index_entry key idx e) ∙ simp append_assoc

-- What reading the entries does to the map: the last entry of a key counts.
abbrev pub insert_all : HashMap IndexEntry → HashMap IndexEntry → HashMap IndexEntry
insert_all index [] = index
insert_all index ((key, e) ∷ es) = insert_all (HashMap.insert key e index) es

abbrev or_else : Option IndexEntry → Option IndexEntry → Option IndexEntry
or_else (some e) o = some e
or_else none o = o

or_else-none : (o : Option IndexEntry) → or_else o none ≡ o
or_else-none none = refl
or_else-none (some e) = refl

get-insert_all :
    (key : Key) (es m : HashMap IndexEntry)
    → HashMap.IsDistinct es
    → HashMap.get key (insert_all m es) ≡ or_else (HashMap.get key es) (HashMap.get key m)
unfolding HashMap.get
get-insert_all key [] m distinct = refl
get-insert_all key ((k, e) ∷ es) m (fresh, distinct) =
    get-insert_all key es (HashMap.insert k e m) distinct
    ∙ ground (arith, get-insert k key e m, fresh, key_eq→eq k key)

-- Read into an empty map, distinct entries are found as they stand.
pub get-insert_all_empty :
    (key : Key) (es : HashMap IndexEntry)
    → HashMap.IsDistinct es
    → HashMap.get key (insert_all [] es) ≡ HashMap.get key es
get-insert_all_empty key es distinct =
    get-insert_all key es [] distinct ∙ unfold HashMap.get in or_else-none (HashMap.get key es)

module _ (crates : Crates) where
  decode_index_entry-bytes :
      (d : IndexDecoder) (key : Key) (e : IndexEntry) (rest : Bytes)
      → IsIndexEntry (key, e)
      → remaining d.cursor ≡ index_entry_bytes (key, e) ++ rest
      → (d' : IndexDecoder) × (decode_index_entry crates d ≡ ok d')
        × (remaining d'.cursor ≡ rest)
        × (d'.index ≡ HashMap.insert key e d.index)
  unfolding decode_index_entry read_key read_index read_key_len read_field_len
  decode_index_entry-bytes d key e rest (len, short, small, near) here = (
    record {
      cursor = c₄;
      index = HashMap.insert key e d.index;
      last_index_key = key.bytes;
      last_idx = e.offset;
      last_key_len = e.key_len;
      last_field_len = e.field_len;
    },
    rw (
      read_uint_le-to_le_bytes crates d.cursor 2 e.key_len _ short h₀,
      read_exact_here c₁ e.key_len key.bytes _ (sym len) h₁,
      read_uint_le-to_le_bytes crates c₂ 4 e.field_len _ small h₂,
      read_uint_le-to_le_bytes crates c₃ 8 e.offset rest near h₃,
    ),
    remaining_next c₃ 8 (to_le_bytes 8 e.offset) rest (length-to_le_bytes 8 e.offset) h₃,
    refl,
  )
    where
      c₁ : Cursor
      c₁ = advance 2 d.cursor

      c₂ : Cursor
      c₂ = advance e.key_len c₁

      c₃ : Cursor
      c₃ = advance 4 c₂

      c₄ : Cursor
      c₄ = advance 8 c₃

      h₀ :
          remaining d.cursor
          ≡ to_le_bytes 2 e.key_len
            ++ (key.bytes ++ (to_le_bytes 4 e.field_len ++ (to_le_bytes 8 e.offset ++ rest)))
      h₀ = here ∙ simp append_assoc

      h₁ :
          remaining c₁
          ≡ key.bytes ++ (to_le_bytes 4 e.field_len ++ (to_le_bytes 8 e.offset ++ rest))
      h₁ = remaining_next d.cursor 2 (to_le_bytes 2 e.key_len) _ (length-to_le_bytes 2 e.key_len) h₀

      h₂ : remaining c₂ ≡ to_le_bytes 4 e.field_len ++ (to_le_bytes 8 e.offset ++ rest)
      h₂ = remaining_next c₁ e.key_len key.bytes _ (sym len) h₁

      h₃ : remaining c₃ ≡ to_le_bytes 8 e.offset ++ rest
      h₃ = remaining_next c₂ 4 (to_le_bytes 4 e.field_len) _ (length-to_le_bytes 4 e.field_len) h₂

  entry_before_end :
      (c : Cursor) (e : Key × IndexEntry) (rest : Bytes)
      → remaining c ≡ index_entry_bytes e ++ rest
      → ltb c.position (length c.inner) ≡ true
  unfolding to_le_bytes
  entry_before_end c (key, e) rest here = position_before_end c _ _ here

  entry_shrinks :
      (e : Key × IndexEntry) (es : HashMap IndexEntry)
      → length (index_bytes es) < length (index_bytes (e ∷ es))
  unfolding to_le_bytes
  entry_shrinks (key, e) es =
      omega (arith, length-append (index_entry_bytes (key, e)) (index_bytes es))

  decode_index_loop-bytes :
      (es : HashMap IndexEntry) (fuel : ℕ) (d : IndexDecoder)
      → All IsIndexEntry es
      → length (index_bytes es) ≤ fuel
      → remaining d.cursor ≡ index_bytes es
      → (d' : IndexDecoder) × (decode_index_loop crates fuel d ≡ ok d')
        × (d'.index ≡ insert_all d.index es)
  unfolding decode_index_loop
  decode_index_loop-bytes [] zero d hs enough here = (d, rw (position_at_end d.cursor here), refl)
  decode_index_loop-bytes [] (suc fuel) d hs enough here =
      (d, rw (position_at_end d.cursor here), refl)
  decode_index_loop-bytes (e ∷ es) zero d hs enough here =
      absurd (omega (arith, entry_shrinks e es))
  decode_index_loop-bytes ((key, e) ∷ es) (suc fuel) d (h, hs) enough here =
      let (d₁, e₁, left, index) = decode_index_entry-bytes d key e (index_bytes es) h here in
      let (d₂, e₂, index') =
        decode_index_loop-bytes es fuel d₁ hs (omega (arith, entry_shrinks (key, e) es)) left in
      (
        d₂,
        rw (entry_before_end d.cursor (key, e) (index_bytes es) here, e₁) e₂,
        index' ∙ ap (λ m. insert_all m es) index,
      )

  pub decode_index-index_bytes :
      (es : HashMap IndexEntry)
      → All IsIndexEntry es
      → decode_index crates (index_bytes es) ≡ ok (insert_all [] es)
  unfolding decode_index decode_index_file
  decode_index-index_bytes es hs =
      let (d, e, index) =
        decode_index_loop-bytes es (length (index_bytes es)) (new_decoder (index_bytes es)) hs
          (omega arith) refl in
      rw (e, index)

  -- The file of an index in any order, with no key twice, in which every entry has the length of its
  -- key, shorter than 2 ^ 16, as `key_len`, a `field_len` below 2 ^ 32 and an `offset` below 2 ^ 64, is
  -- decoded to an index that has the same entry, or none, at every key.
  pub get-decode_index :
      (es : HashMap IndexEntry)
      → HashMap.IsDistinct es
      → All IsIndexEntry es
      → (index : HashMap IndexEntry) × (decode_index crates
            (encode_index_file es new_encoder).buffer
          ≡ ok index)
        × ((key : Key) → HashMap.get key index ≡ HashMap.get key es)
  get-decode_index es distinct hs = (
    insert_all [] es,
    rw encode_index_file-bytes (decode_index-index_bytes es hs),
    λ key. get-insert_all_empty key es distinct,
  )
