-- ===== src/Db/Database/Killed.antt =====
-- A tombstone that `Database::flush` of src/db/db.rs writes among records, and a record that it appends.
use peach_db.Base.{
  ℕ, ◌+◌, ◌≤◌, ◌≡◌, refl, sym, ap, ◌∙◌, true, Option, none, some, List, [], ◌∷◌, ◌++◌, arith,
  length, length-append, All, Bool-cases, inl, inr,
}
use peach_db.Base.Words.{Bytes, as_u16, as_u32}
use peach_db.Base.HashMap.{key_eq}
use peach_db.Error.{ok}
use peach_db.Cursor.{Crates}
use peach_db.Dtypes.Key
use peach_db.Dtypes.Key.{Key}
use peach_db.Dtypes.Field.{Field}
use peach_db.Dtypes.Codec.{bytes_from_field}
use peach_db.Db.DbDeleter
use peach_db.Db.IndexCodec.{IndexEntry}
use peach_db.Db.Records.{DiskRecord, live, dead, IsRecord, record_bytes, records_bytes}
use peach_db.Db.Records.Encode.{encode-live}
use peach_db.Db.System.{System}
use peach_db.Db.FileHandler.{append}
use peach_db.Db.Database.Flush.{index_entry, write_tombstone, append_record}
use peach_db.Db.Database.Tombstone.{write_tombstone-record_bytes}
use peach_db.Db.Database.Located.{
  lives, kill, kill-none, size, sizes, length-record_bytes, length-records_bytes,
  records_bytes-append, locate, locate-none,
}
use mathlib.Core.List.{append_assoc}

pub locate-eq-none :
    (k : Key) (pos : ℕ) (rs : List DiskRecord) (held : Option IndexEntry)
    → locate k pos rs held ≡ none
    → (held ≡ none) × (lives k rs ≡ 0)
locate-eq-none k pos [] held h = (h, refl)
locate-eq-none k pos (dead a b ∷ rs) held h = locate-eq-none k (pos + size (dead a b)) rs held h
locate-eq-none k pos (live j f ∷ rs) held h = elim (Bool-cases (key_eq j k)) [
  | inl e ↦
      cc ((locate-eq-none k (pos + size (live j f)) rs (some (index_entry pos j f)) (rw e at h)).0)
  | inr e ↦ rw e (
      let (same, no_live) = locate-eq-none k (pos + size (live j f)) rs held (rw e at h) in
      (same, omega (arith, no_live)))
]

regroup : (before x y after : Bytes) → before ++ ((x ++ y) ++ after) ≡ (before ++ x) ++ (y ++ after)
regroup before x y after = simp append_assoc

module _ (crates : Crates) where
  passed :
      (before : Bytes) (r : DiskRecord)
      → length (before ++ record_bytes crates r) ≡ length before + size r
  passed before r =
      omega (arith, length-append before (record_bytes crates r), length-record_bytes crates r)

  -- A tombstone at the only live record of a key, wherever it stands among the records.
  pub write_tombstone-records_bytes :
      (k : Key) (rs : List DiskRecord) (before after : Bytes) (e : IndexEntry) (s : System)
      → All IsRecord rs
      → lives k rs ≤ 1
      → locate k (length before) rs none ≡ some e
      → s.fates ≡ []
      → s.db_file ≡ before ++ (records_bytes crates rs ++ after)
      → write_tombstone (some e) DbDeleter.new s ≡ (
        ok DbDeleter.new,
        record s { db_file = before ++ (records_bytes crates (kill k rs) ++ after) },
      )
  write_tombstone-records_bytes k [] before after e s hs once at_e calm file = cc
  write_tombstone-records_bytes k (dead a b ∷ rs) before after e s (h, hs) once at_e calm file =
      write_tombstone-records_bytes k rs (before ++ record_bytes crates (dead a b)) after e s hs
        once (ap (λ p. locate k p rs none) (passed before (dead a b)) ∙ at_e) calm
        (file ∙ regroup before (record_bytes crates (dead a b)) (records_bytes crates rs) after)
      ∙ ap (λ t. (ok DbDeleter.new, record s { db_file = t }))
          (sym (
            regroup before (record_bytes crates (dead a b)) (records_bytes crates (kill k rs))
              after))
  write_tombstone-records_bytes k (live j f ∷ rs) before after e s (h, hs) once at_e calm file =
      elim (Bool-cases (key_eq j k)) [
        | inl here ↦ rw here (found here)
        | inr other ↦ rw other (
            write_tombstone-records_bytes k rs (before ++ record_bytes crates (live j f)) after e s
              hs (omega (arith, rw other at once))
              (ap (λ p. locate k p rs none) (passed before (live j f)) ∙ (rw other at at_e)) calm
              (file
                ∙ regroup before (record_bytes crates (live j f)) (records_bytes crates rs) after)
            ∙ ap (λ t. (ok DbDeleter.new, record s { db_file = t }))
                (sym (
                  regroup before (record_bytes crates (live j f)) (records_bytes crates (kill k rs))
                    after)))
      ]
    where
      dead_record : DiskRecord
      dead_record = dead (as_u16 (Key.len j)) (as_u32 (length (bytes_from_field f)))

      found :
          key_eq j k ≡ true
          → write_tombstone (some e) DbDeleter.new s ≡ (
            ok DbDeleter.new,
            record s {
              db_file = before ++ (records_bytes crates (dead_record ∷ kill k rs) ++ after);
            },
          )
      found here =
          ap (λ t. write_tombstone (some t) DbDeleter.new s) (sym named)
          ∙ write_tombstone-record_bytes crates j f s before (records_bytes crates rs ++ after) h
              calm
              (file
                ∙ ap (λ t. before ++ t)
                    (append_assoc (record_bytes crates (live j f)) (records_bytes crates rs) after))
          ∙ ap (λ t. (ok DbDeleter.new, record s { db_file = before ++ t }))
              (sym (append_assoc (record_bytes crates dead_record) (records_bytes crates rs) after))
          ∙ ap
              (λ t. (
                ok DbDeleter.new,
                record s { db_file = before ++ (records_bytes crates (dead_record ∷ t) ++ after) },
              ))
              (sym (kill-none k rs only))
        where
          only : lives k rs ≡ 0
          only = omega (arith, rw here at once)

          named : index_entry (length before) j f ≡ e
          named = cc (
            locate-none k (length before + size (live j f)) rs
                (some (index_entry (length before) j f)) only,
            rw here at at_e,
          )

  pub append_record-records_bytes :
      (key : Key) (field : Field) (rs : List DiskRecord) (header : Bytes) (s : System)
      → s.fates ≡ []
      → s.db_file ≡ header ++ records_bytes crates rs
      → append_record crates key field s ≡ (
        ok (key, index_entry (length header + sizes rs) key field),
        record s { db_file = header ++ records_bytes crates (rs ++ live key field ∷ []) },
      )
  unfolding append_record append
  append_record-records_bytes key field rs header s calm file = rw (
    encode-live crates key field,
    calm,
    file,
    records_bytes-append crates rs (live key field),
    append_assoc header (records_bytes crates rs) (record_bytes crates (live key field)),
    length-append header (records_bytes crates rs),
    length-records_bytes crates rs,
  )
