-- ===== src/Db/Database/Scan.antt =====
-- `IndexFromDBDecoder` of src/db/codec.rs on the files that the format describes.
use peach_db.Base.{
  ℕ, zero, suc, ◌+◌, ◌≤◌, ◌<◌, ◌^◌, ◌≡◌, refl, ◌∙◌, List, [], ◌∷◌, ◌++◌, arith, length,
  length-append, drop_here, All,
}
use peach_db.Base.Words.{Bytes, to_le_bytes}
use peach_db.Error.{ok}
use peach_db.Cursor
use peach_db.Cursor.{Cursor, Crates, remaining, advance}
use peach_db.Cursor.Laws.{position_at_end, read_uint_le-to_le_bytes, read_u8_here}
use peach_db.Db.DbEncoder.{db_header_magic, db_version, db_version_decimal, db_name_key}
use peach_db.Db.IndexFromDb
use peach_db.Db.IndexFromDb.{
  skip_metadata_key, IndexFromDbDecoder, set_last_index, read_magic_number, read_key_len,
  read_field_len, skip_crc, read_key, skip_field, index_push, index_record, index_records,
  decode_index_from_file, index_from_db, decode_db_header,
}
use peach_db.Db.Records.{DiskRecord, live, dead, IsRecord, records_bytes}
use peach_db.Db.Records.Header.{header_bytes, name_field, length-header_bytes}
use peach_db.Db.Records.File.{record_before_end, record_shrinks}
use peach_db.Db.Database.Located.{size}
use mathlib.Core.Path.{ap₂}
use peach_db.Db.Database.ScanRecord.{index_of, IsNamed, index_record-record_bytes}

module _ (crates : Crates) where
  index_records-records_bytes :
      (rs : List DiskRecord) (fuel : ℕ) (d : IndexFromDbDecoder)
      → All IsRecord rs
      → All IsNamed rs
      → length (records_bytes crates rs) ≤ fuel
      → remaining d.cursor ≡ records_bytes crates rs
      → (d' : IndexFromDbDecoder) × (index_records crates fuel d ≡ ok d')
        × (d'.index ≡ index_of d.cursor.position rs d.index)
  unfolding index_records
  index_records-records_bytes [] zero d hs ns enough here =
      (d, rw (position_at_end d.cursor here), refl)
  index_records-records_bytes [] (suc fuel) d hs ns enough here =
      (d, rw (position_at_end d.cursor here), refl)
  index_records-records_bytes (r ∷ rs) zero d hs ns enough here =
      absurd (omega (arith, record_shrinks crates r rs))
  index_records-records_bytes (r ∷ rs) (suc fuel) d (h, hs) (n, ns) enough here =
      let (d₁, e₁, done) =
        index_record-record_bytes crates d r (records_bytes crates rs) h n here in
      let (d₂, e₂, index) =
        index_records-records_bytes rs fuel d₁ hs ns (omega (arith, record_shrinks crates r rs))
          done.left in
      (
        d₂,
        rw (record_before_end crates d.cursor r (records_bytes crates rs) here, e₁) e₂,
        index ∙ ap₂ (λ p m. index_of p rs m) done.position done.index ∙ regroup r,
      )
    where
      regroup :
          (r : DiskRecord)
          → index_of (d.cursor.position + size r) rs (index_of d.cursor.position (r ∷ []) d.index)
            ≡ index_of d.cursor.position (r ∷ rs) d.index
      regroup (live j f) = refl
      regroup (dead a b) = refl

  decode_db_header-header_bytes :
      (n : ℕ) (name rest : Bytes)
      → n < 2 ^ 64
      → decode_db_header crates (IndexFromDb.new (header_bytes n name ++ rest))
        ≡ ok (record (IndexFromDb.new (header_bytes n name ++ rest)) {
          cursor = Cursor.set_position 114 (Cursor.new (header_bytes n name ++ rest));
        })
  unfolding decode_db_header skip_metadata_key to_le_bytes
  decode_db_header-header_bytes n name rest fits = rw (
    read_uint_le-to_le_bytes crates (at 8) 8 db_header_magic _ (omega arith) refl,
    read_u8_here crates (at 24) db_version _ refl,
    read_u8_here crates (at 25) db_version_decimal _ refl,
    read_uint_le-to_le_bytes crates (at 34) 8 n (db_name_key ++ (name_field name ++ rest)) fits
        refl,
  )
    where
      at : ℕ → Cursor
      at p = Cursor.set_position p (Cursor.new (header_bytes n name ++ rest))

  -- A file of a header, whose count fits 64 bits, and of records that are well formed and whose live
  -- keys are not empty gives the index that has for every key the place and the lengths of its last
  -- live record, counted from byte 114.
  pub index_from_db-records_bytes :
      (n : ℕ) (name : Bytes) (rs : List DiskRecord)
      → n < 2 ^ 64
      → All IsRecord rs
      → All IsNamed rs
      → index_from_db crates (header_bytes n name ++ records_bytes crates rs)
        ≡ ok (index_of 114 rs [])
  unfolding index_from_db decode_index_from_file
  index_from_db-records_bytes n name rs fits hs ns =
      let bytes = header_bytes n name ++ records_bytes crates rs in
      let d : IndexFromDbDecoder = record (IndexFromDb.new bytes) {
        cursor = Cursor.set_position 114 (Cursor.new bytes);
      } in
      let (d', e, index) =
        index_records-records_bytes rs (length bytes) d hs ns
          (omega (arith, length-append (header_bytes n name) (records_bytes crates rs)))
          (drop_here 114 (header_bytes n name) (records_bytes crates rs)
            (length-header_bytes n name)) in
      rw (decode_db_header-header_bytes n name (records_bytes crates rs) fits, e, index)
