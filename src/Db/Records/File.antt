-- ===== src/Db/Records/File.antt =====
-- A whole `.db` file: the header and the records behind it.
use peach_db.Base.{
  ℕ, zero, suc, ◌≤◌, ◌<◌, ◌^◌, ◌≡◌, refl, ap, ◌∙◌, true, some, List, [], ◌∷◌, ◌++◌, arith, length,
  length-append, ltb, All,
}
use peach_db.Base.Words.{Bytes}
use peach_db.Base.Utf8.{from_utf8_lossy}
use peach_db.Error.{ok, ◌>>=◌}
use peach_db.Cursor.{Cursor, Crates, remaining}
use peach_db.Cursor.Laws.{position_before_end, position_at_end}
use peach_db.Db.DbDecoder
use peach_db.Db.DbDecoder.{
  DbDecoder, read_metadata_key, is_metadata_key, trim_nul, decode_db_header,
  decode_db_key_field_pair, decode_records, decode_db_file, decode, finish,
}
use peach_db.Db.Records.{
  DiskRecord, live, dead, IsRecord, record_bytes, records_bytes, apply_records,
}
use peach_db.Db.Records.Header.{name_field, header_bytes, decode_db_header-header_bytes}
use peach_db.Db.Records.Decode.{decode_pair-record_bytes}

pub record_before_end :
    (crates : Crates) (c : Cursor) (r : DiskRecord) (rest : Bytes)
    → remaining c ≡ record_bytes crates r ++ rest
    → ltb c.position (length c.inner) ≡ true
record_before_end crates c (live key field) rest here = position_before_end c b'R' _ here
record_before_end crates c (dead key_len field_len) rest here = position_before_end c 0 _ here

pub record_shrinks :
    (crates : Crates) (r : DiskRecord) (rs : List DiskRecord)
    → length (records_bytes crates rs) < length (records_bytes crates (r ∷ rs))
record_shrinks crates (live key field) rs =
    omega (arith, length-append (record_bytes crates (live key field)) (records_bytes crates rs))
record_shrinks crates (dead key_len field_len) rs =
    omega (
      arith,
      length-append (record_bytes crates (dead key_len field_len)) (records_bytes crates rs),
    )

module _ (crates : Crates) where
  pub decode_records-records_bytes :
      (rs : List DiskRecord) (fuel : ℕ) (d : DbDecoder)
      → All IsRecord rs
      → length (records_bytes crates rs) ≤ fuel
      → remaining d.cursor ≡ records_bytes crates rs
      → (d' : DbDecoder) × (decode_records crates fuel d ≡ ok d')
        × (d'.db ≡ apply_records d.db rs)
        × (d'.meta ≡ d.meta)
  unfolding decode_records
  decode_records-records_bytes [] zero d hs enough here =
      (d, rw (position_at_end d.cursor here), refl, refl)
  decode_records-records_bytes [] (suc fuel) d hs enough here =
      (d, rw (position_at_end d.cursor here), refl, refl)
  decode_records-records_bytes (r ∷ rs) zero d hs enough here =
      absurd (omega (arith, record_shrinks crates r rs))
  decode_records-records_bytes (r ∷ rs) (suc fuel) d (h, hs) enough here =
      let (d₁, e₁, done) = decode_pair-record_bytes crates d r (records_bytes crates rs) h here in
      let (d₂, e₂, db, meta) =
        decode_records-records_bytes rs fuel d₁ hs (omega (arith, record_shrinks crates r rs))
          done.left in
      (
        d₂,
        rw (record_before_end crates d.cursor r (records_bytes crates rs) here, e₁) e₂,
        db ∙ ap (λ m. apply_records m rs) done.db,
        meta ∙ done.meta,
      )

  -- A file of a header, whose count fits 64 bits, and of records, live or deleted, that are well formed
  -- decodes to the map that the records leave, with the version, the count and the name of the header.
  pub decode_db_file-records_bytes :
      (record_count : ℕ) (name : Bytes) (rs : List DiskRecord)
      → record_count < 2 ^ 64
      → All IsRecord rs
      → (decode_db_file crates
            (DbDecoder.new (header_bytes record_count name ++ records_bytes crates rs))
          >>= finish)
        ≡ ok (
          apply_records [] rs,
          record {
            version = 1;
            record_count = record_count;
            name = trim_nul (from_utf8_lossy (name_field name));
          },
        )
  unfolding decode_db_file finish
  decode_db_file-records_bytes record_count name rs fits hs =
      let bytes = header_bytes record_count name ++ records_bytes crates rs in
      let (c, e, left, same) =
        decode_db_header-header_bytes crates (DbDecoder.new bytes) record_count name
          (records_bytes crates rs) fits refl in
      let d₀ : DbDecoder = record (DbDecoder.new bytes) {
        cursor = c;
        meta = some (record {
          version = 1;
          record_count = record_count;
          name = trim_nul (from_utf8_lossy (name_field name));
        });
      } in
      let (d, e', db, meta) =
        decode_records-records_bytes rs (length c.inner) d₀ hs
          (omega (
            arith,
            ap length same,
            length-append (header_bytes record_count name) (records_bytes crates rs),
          ))
          left in
      rw (e, e', db, meta)
