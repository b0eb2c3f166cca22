-- ===== src/Db/Records/Header.antt =====
-- The header of a `.db` file.
use peach_db.Base.{
  ℕ, ◌<◌, ◌^◌, ◌≡◌, refl, ◌∙◌, true, some, ◌∷◌, ◌++◌, arith, length, take, drop, replicate,
  length-append, length-take, length-drop,
}
use Prim.Native.Nat.{min}
use peach_db.Base.Words.{Bytes, to_le_bytes, length-to_le_bytes}
use peach_db.Base.Keys.{bytes_eq}
use peach_db.Base.Utf8.{from_utf8_lossy}
use peach_db.Error.{ok}
use peach_db.Cursor
use peach_db.Cursor.{Cursor, Crates, remaining, advance, read_exact}
use peach_db.Cursor.Laws.{
  read_exact_here, remaining_next, read_uint_le-to_le_bytes, read_u8_here, remaining_tail,
}
use peach_db.Db.DbEncoder.{
  DbMeta, DbEncoder, encode_db_header, db_header_key, db_header_magic, db_version_key, db_version,
  db_version_decimal, db_record_count_key, db_name_key, db_name_len,
}
use peach_db.Db.DbDecoder.{
  DbDecoder, read_metadata_key, is_metadata_key, trim_nul, decode_db_header,
}
use mathlib.Core.List.{append_assoc}

-- The name in its 64 bytes, cut or padded with zeros.
abbrev pub name_field : Bytes → Bytes
name_field name =
    let copy_len = min (length name) db_name_len in
    take copy_len name ++ drop copy_len (replicate db_name_len 0)

pub length-name_field : (name : Bytes) → length (name_field name) ≡ 64
length-name_field name = omega (
  arith,
  length-append (take (min (length name) 64) name) (drop (min (length name) 64) zeros),
  length-take (min (length name) 64) name,
  length-drop (min (length name) 64) zeros,
)
  where
    zeros : Bytes
    zeros = replicate 64 0

abbrev pub header_bytes : ℕ → Bytes → Bytes
header_bytes record_count name =
    db_header_key
    ++ (to_le_bytes 8 db_header_magic
        ++ (db_version_key
            ++ (db_version
                ∷ db_version_decimal
                ∷ (db_record_count_key
                    ++ (to_le_bytes 8 record_count ++ (db_name_key ++ name_field name))))))

pub length-header_bytes : (n : ℕ) (name : Bytes) → length (header_bytes n name) ≡ 114
unfolding to_le_bytes
length-header_bytes n name = omega (arith, length-name_field name)

pub encode_db_header-bytes :
    (meta : DbMeta) (e : DbEncoder)
    → (encode_db_header meta e).buffer ≡ e.buffer ++ header_bytes meta.record_count meta.name
unfolding encode_db_header
encode_db_header-bytes meta e = simp append_assoc

read_metadata_key_here :
    (d : DbDecoder) (key rest : Bytes)
    → length key ≡ 8
    → is_metadata_key key ≡ true
    → remaining d.cursor ≡ key ++ rest
    → read_metadata_key d ≡ ok (record d { cursor = advance 8 d.cursor })
unfolding read_metadata_key
read_metadata_key_here d key rest eight known here =
    rw (read_exact_here d.cursor 8 key rest eight here, known)

module _ (crates : Crates) where
  pub decode_db_header-header_bytes :
      (d : DbDecoder) (record_count : ℕ) (name rest : Bytes)
      → record_count < 2 ^ 64
      → d.cursor.inner ≡ header_bytes record_count name ++ rest
      → (c : Cursor) × (decode_db_header crates d
          ≡ ok (record d {
            cursor = c;
            meta = some (record {
              version = 1;
              record_count = record_count;
              name = trim_nul (from_utf8_lossy (name_field name));
            });
          }))
        × (remaining c ≡ rest)
        × (c.inner ≡ d.cursor.inner)
  unfolding decode_db_header
  decode_db_header-header_bytes d record_count name rest fits here = (
    at 114,
    rw (
      read_metadata_key_here (record d { cursor = at 0 }) db_header_key _ refl
          (unfold is_metadata_key bytes_eq in refl) h₀,
      read_uint_le-to_le_bytes crates (at 8) 8 db_header_magic _ (omega arith) h₁,
      read_metadata_key_here (record d { cursor = at 16 }) db_version_key _ refl
          (unfold is_metadata_key bytes_eq in refl) h₂,
      read_u8_here crates (at 24) db_version _ h₃,
      read_u8_here crates (at 25) db_version_decimal _ h₄,
      read_metadata_key_here (record d { cursor = at 26 }) db_record_count_key _ refl
          (unfold is_metadata_key bytes_eq in refl) h₅,
      read_uint_le-to_le_bytes crates (at 34) 8 record_count _ fits h₆,
      read_metadata_key_here (record d { cursor = at 42 }) db_name_key _ refl
          (unfold is_metadata_key bytes_eq in refl) h₇,
      read_exact_here (at 50) 64 (name_field name) rest (length-name_field name) h₈,
    ),
    remaining_next (at 50) 64 (name_field name) rest (length-name_field name) h₈,
    refl,
  )
    where
      at : ℕ → Cursor
      at p = Cursor.set_position p d.cursor

      t₈ : Bytes
      t₈ = name_field name ++ rest

      t₇ : Bytes
      t₇ = db_name_key ++ t₈

      t₆ : Bytes
      t₆ = to_le_bytes 8 record_count ++ t₇

      t₅ : Bytes
      t₅ = db_record_count_key ++ t₆

      t₄ : Bytes
      t₄ = db_version_decimal ∷ t₅

      t₃ : Bytes
      t₃ = db_version ∷ t₄

      t₂ : Bytes
      t₂ = db_version_key ++ t₃

      t₁ : Bytes
      t₁ = to_le_bytes 8 db_header_magic ++ t₂

      h₀ : remaining (at 0) ≡ db_header_key ++ t₁
      h₀ = here ∙ simp append_assoc

      h₁ : remaining (at 8) ≡ t₁
      h₁ = remaining_next (at 0) 8 db_header_key t₁ refl h₀

      h₂ : remaining (at 16) ≡ t₂
      h₂ =
          remaining_next (at 8) 8 (to_le_bytes 8 db_header_magic) t₂
            (length-to_le_bytes 8 db_header_magic) h₁

      h₃ : remaining (at 24) ≡ t₃
      h₃ = remaining_next (at 16) 8 db_version_key t₃ refl h₂

      h₄ : remaining (at 25) ≡ t₄
      h₄ = remaining_tail crates (at 24) db_version t₄ h₃

      h₅ : remaining (at 26) ≡ t₅
      h₅ = remaining_tail crates (at 25) db_version_decimal t₅ h₄

      h₆ : remaining (at 34) ≡ t₆
      h₆ = remaining_next (at 26) 8 db_record_count_key t₆ refl h₅

      h₇ : remaining (at 42) ≡ t₇
      h₇ =
          remaining_next (at 34) 8 (to_le_bytes 8 record_count) t₇
            (length-to_le_bytes 8 record_count) h₆

      h₈ : remaining (at 50) ≡ t₈
      h₈ = remaining_next (at 42) 8 db_name_key t₈ refl h₇
