-- ===== src/Db/Records/Checksum.antt =====
-- A `.db` file with a record whose checksum is wrong.
use mathlib.Core.Path.{ap₂}
use peach_db.Base.{
  ℕ, zero, suc, ◌<◌, ◌^◌, ◌≡◌, ◌≢◌, refl, ap, ◌∙◌, false, Bool-cases, inl, inr, some, List, [], ◌∷◌,
  ◌++◌, arith, length, length-append, All, replicate, ◌==◌, ==_iff,
}
use peach_db.Base.Words.{Bytes, to_le_bytes}
use peach_db.Base.Keys.{bytes_eq}
use peach_db.Base.Utf8.{from_utf8_lossy}
use peach_db.Error.{err, corrupted_record, PeachDbError}
use peach_db.Cursor.{Crates, remaining}
use peach_db.Cursor.Laws.{position_before_end}
use peach_db.Db.DbEncoder.{record_magic_number}
use peach_db.Db.DbDecoder
use peach_db.Db.DbDecoder.{
  DbDecoder, is_deleted, check_crc, store_live, finish_record, trim_nul, decode_db_header,
  decode_db_key_field_pair, decode_records, decode_db_file,
}
use peach_db.Db.Records.{DiskRecord, IsRecord, crc_input, frame, record_bytes, records_bytes}
use peach_db.Db.Records.Header.{name_field, header_bytes, decode_db_header-header_bytes}
use peach_db.Db.Records.Decode.{after_reads, six_reads, decode_pair-record_bytes}
use peach_db.Db.Records.File.{record_before_end, record_shrinks}
use mathlib.Core.List.{append_assoc}
use native.Mathlib.Nat.{mod-eq_of_lt}

abbrev pub mismatch : PeachDbError
mismatch = corrupted_record "Checksum Mismatch"

-- A record that is not deleted, with any key and payload, and a checksum that is not theirs.
pub record IsCorrupted (crates : Crates) (key payload : Bytes) (crc : ℕ) : Type 0 where
  pub short : length key < 2 ^ 16
  pub small : length payload < 2 ^ 32
  pub fits : crc < 2 ^ 32
  pub differs : crates.checksum (crc_input key payload) ≢ crc

abbrev pub corrupted_bytes : Bytes → Bytes → ℕ → Bytes
corrupted_bytes key payload crc =
    frame record_magic_number (length key) (length payload) crc key payload

module _ (crates : Crates) (key payload : Bytes) (crc : ℕ)
    (bad : IsCorrupted crates key payload crc) where
  open bad use {short, small, fits, differs}

  unequal :
      (crates.checksum (
          to_le_bytes 2 (length key)
          ++ (to_le_bytes 4 (length payload) ++ (replicate 4 0 ++ (key ++ payload))))
        == crc)
      ≡ false
  unequal = elim (Bool-cases (crates.checksum plain == crc)) [
    | inl same ↦ absurd (
        differs (
          ap₂
            (λ a b.
              crates.checksum
                (to_le_bytes 2 a ++ (to_le_bytes 4 b ++ (replicate 4 0 ++ (key ++ payload)))))
            (mod-eq_of_lt short) (mod-eq_of_lt small)
          ∙ (==_iff (crates.checksum plain) crc).0 same))
    | inr other ↦ other
  ]
    where
      plain : Bytes
      plain =
          to_le_bytes 2 (length key)
          ++ (to_le_bytes 4 (length payload) ++ (replicate 4 0 ++ (key ++ payload)))

  decode_pair-corrupted :
      (d : DbDecoder) (rest : Bytes)
      → remaining d.cursor ≡ corrupted_bytes key payload crc ++ rest
      → decode_db_key_field_pair crates d ≡ err mismatch
  unfolding decode_db_key_field_pair finish_record store_live check_crc after_reads is_deleted
      bytes_eq
  decode_pair-corrupted d rest here = rw (
    six_reads d record_magic_number crc key payload rest refl short small fits here false refl,
    unequal,
  )

  decode_records-corrupted :
      (rs : List DiskRecord) (rest : Bytes) (fuel : ℕ) (d : DbDecoder)
      → All IsRecord rs
      → length (records_bytes crates rs) < fuel
      → remaining d.cursor ≡ records_bytes crates rs ++ (corrupted_bytes key payload crc ++ rest)
      → decode_records crates fuel d ≡ err mismatch
  unfolding decode_records
  decode_records-corrupted rs rest zero d hs enough here = absurd (omega arith)
  decode_records-corrupted [] rest (suc fuel) d hs enough here =
      rw (position_before_end d.cursor b'R' _ here, decode_pair-corrupted d rest here)
  decode_records-corrupted (r ∷ rs) rest (suc fuel) d (h, hs) enough here =
      let tail = records_bytes crates rs ++ (corrupted_bytes key payload crc ++ rest) in
      let here' = here ∙ append_assoc (record_bytes crates r) (records_bytes crates rs) _ in
      let (d₁, e₁, done) = decode_pair-record_bytes crates d r tail h here' in
      rw (record_before_end crates d.cursor r tail here', e₁)
        (decode_records-corrupted rs rest fuel d₁ hs (omega (arith, record_shrinks crates r rs))
          done.left)

  -- Whatever follows the record.
  pub decode_db_file-corrupted :
      (record_count : ℕ) (name : Bytes) (rs : List DiskRecord) (rest : Bytes)
      → record_count < 2 ^ 64
      → All IsRecord rs
      → decode_db_file crates (
          DbDecoder.new (
            header_bytes record_count name
            ++ (records_bytes crates rs ++ (corrupted_bytes key payload crc ++ rest))))
        ≡ err mismatch
  unfolding decode_db_file
  decode_db_file-corrupted record_count name rs rest fits hs =
      let tail = records_bytes crates rs ++ (corrupted_bytes key payload crc ++ rest) in
      let bytes = header_bytes record_count name ++ tail in
      let (c, e, left, same) =
        decode_db_header-header_bytes crates (DbDecoder.new bytes) record_count name tail fits
          refl in
      let d₀ : DbDecoder = record (DbDecoder.new bytes) {
        cursor = c;
        meta = some (record {
          version = 1;
          record_count = record_count;
          name = trim_nul (from_utf8_lossy (name_field name));
        });
      } in
      rw e (
        decode_records-corrupted rs rest (length c.inner) d₀ hs
          (omega (
            arith,
            ap length same,
            length-append (header_bytes record_count name) tail,
            length-append (records_bytes crates rs) (corrupted_bytes key payload crc ++ rest),
          ))
          left)
