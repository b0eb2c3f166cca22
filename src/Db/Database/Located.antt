-- ===== src/Db/Database/Located.antt =====
-- What the records of a `.db` file hold of a key: its last value, where its last record stands, and
-- how many live records it has.
use peach_db.Base.{
  ℕ, ◌+◌, ◌≡◌, refl, sym, ap, ◌∙◌, true, false, Option, some, List, [], ◌∷◌, ◌++◌, arith, length,
  length-append, replicate, length-replicate, Bool, All, if◌then◌else◌, Bool-cases, inl, inr,
}
use peach_db.Base.Words.{as_u16, as_u32}
use peach_db.Base.HashMap
use peach_db.Base.HashMap.{HashMap, key_eq, key_eq→eq}
use peach_db.Base.HashMap.Laws.{get-insert, key_eq_congr, key_eq_congr_right}
use peach_db.Cursor.{Crates}
use peach_db.Dtypes.Key
use peach_db.Dtypes.Key.{Key}
use peach_db.Dtypes.Field.{Field}
use peach_db.Dtypes.Codec.{bytes_from_field}
use peach_db.Db.IndexCodec.{IndexEntry}
use peach_db.Db.Records.{
  DiskRecord, live, dead, IsRecord, record_bytes, records_bytes, apply_records, crc_input,
}
use peach_db.Db.DbEncoder.{record_magic_number}
use peach_db.Db.Database.Flush.{index_entry}
use peach_db.Db.Database.Tombstone.{length-frame}
use mathlib.Core.List.{append_assoc, append-nil}

abbrev pub latest : Key → List DiskRecord → Option Field → Option Field
latest k [] held = held
latest k (live j f ∷ rs) held = latest k rs (if key_eq j k then some f else held)
latest k (dead a b ∷ rs) held = latest k rs held

abbrev pub lives : Key → List DiskRecord → ℕ
lives k [] = 0
lives k (live j f ∷ rs) = (if key_eq j k then 1 else 0) + lives k rs
lives k (dead a b ∷ rs) = lives k rs

-- A tombstone in place of each live record of a key.
abbrev pub kill : Key → List DiskRecord → List DiskRecord
kill k [] = []
kill k (live j f ∷ rs) =
    (if key_eq j k
      then dead (as_u16 (Key.len j)) (as_u32 (length (bytes_from_field f)))
      else live j f)
    ∷ kill k rs
kill k (dead a b ∷ rs) = dead a b ∷ kill k rs

pub get-apply_records :
    (k : Key) (rs : List DiskRecord) (db : HashMap Field)
    → HashMap.get k (apply_records db rs) ≡ latest k rs (HashMap.get k db)
get-apply_records k [] db = refl
get-apply_records k (live j f ∷ rs) db =
    get-apply_records k rs (HashMap.insert j f db) ∙ ap (latest k rs) (get-insert j k f db)
get-apply_records k (dead a b ∷ rs) db = get-apply_records k rs db

pub latest-append :
    (k j : Key) (f : Field) (rs : List DiskRecord) (held : Option Field)
    → latest k (rs ++ live j f ∷ []) held ≡ (if key_eq j k then some f else latest k rs held)
latest-append k j f [] held = refl
latest-append k j f (live i g ∷ rs) held =
    latest-append k j f rs (if key_eq i k then some g else held)
latest-append k j f (dead a b ∷ rs) held = latest-append k j f rs held

pub latest-kill :
    (k j : Key) (rs : List DiskRecord) (held : Option Field)
    → latest k (kill j rs) held ≡ (if key_eq j k then held else latest k rs held)
latest-kill k j [] held = ground arith
latest-kill k j (dead a b ∷ rs) held = latest-kill k j rs held
latest-kill k j (live i g ∷ rs) held = elim (Bool-cases (key_eq i j)) [
  | inl e ↦ rw e (latest-kill k j rs held ∙ ground (arith, key_eq_congr i j k))
  | inr e ↦ rw e (
      latest-kill k j rs (if key_eq i k then some g else held)
      ∙ ground (arith, key_eq_congr_right j k i))
]

pub lives-append :
    (k j : Key) (f : Field) (rs : List DiskRecord)
    → lives k (rs ++ live j f ∷ []) ≡ (if key_eq j k then 1 else 0) + lives k rs
lives-append k j f [] = refl
lives-append k j f (live i g ∷ rs) = omega (arith, lives-append k j f rs)
lives-append k j f (dead a b ∷ rs) = lives-append k j f rs

pub lives-kill :
    (k j : Key) (rs : List DiskRecord)
    → lives k (kill j rs) ≡ (if key_eq j k then 0 else lives k rs)
lives-kill k j [] = ground arith
lives-kill k j (dead a b ∷ rs) = lives-kill k j rs
lives-kill k j (live i g ∷ rs) = elim (Bool-cases (key_eq i j)) [
  | inl e ↦ rw e (lives-kill k j rs ∙ ground (arith, key_eq_congr i j k))
  | inr e ↦ rw e (ground (arith, lives-kill k j rs, key_eq_congr_right j k i))
]

pub kill-none : (k : Key) (rs : List DiskRecord) → lives k rs ≡ 0 → kill k rs ≡ rs
kill-none k [] h = refl
kill-none k (dead a b ∷ rs) h = ap (λ t. dead a b ∷ t) (kill-none k rs h)
kill-none k (live j f ∷ rs) h = elim (Bool-cases (key_eq j k)) [
  | inl e ↦ absurd (ground arith)
  | inr e ↦ rw e (ap (λ t. live j f ∷ t) (kill-none k rs (ground arith)))
]

pub kill-IsRecord : (k : Key) (rs : List DiskRecord) → All IsRecord rs → All IsRecord (kill k rs)
kill-IsRecord k [] h = tt
kill-IsRecord k (dead a b ∷ rs) (h, hs) = (h, kill-IsRecord k rs hs)
kill-IsRecord k (live j f ∷ rs) (h, hs) = (branch (key_eq j k), kill-IsRecord k rs hs)
  where
    branch :
        (b : Bool)
        → IsRecord (
            if b
            then dead (as_u16 (Key.len j)) (as_u32 (length (bytes_from_field f)))
            else live j f)
    branch true = (omega arith, omega arith)
    branch false = h

pub append-IsRecord :
    (r : DiskRecord) (rs : List DiskRecord)
    → IsRecord r
    → All IsRecord rs
    → All IsRecord (rs ++ r ∷ [])
append-IsRecord r [] h hs = (h, tt)
append-IsRecord r (q ∷ rs) h (hq, hs) = (hq, append-IsRecord r rs h hs)

-- How many bytes a record takes.
abbrev pub size : DiskRecord → ℕ
size (live j f) = 14 + (Key.len j + length (bytes_from_field f))
size (dead a b) = 14 + (a + b)

abbrev pub sizes : List DiskRecord → ℕ
sizes [] = 0
sizes (r ∷ rs) = size r + sizes rs

pub length-record_bytes :
    (crates : Crates) (r : DiskRecord) → length (record_bytes crates r) ≡ size r
length-record_bytes crates (live j f) =
    length-frame record_magic_number (as_u16 (Key.len j)) (as_u32 (length (bytes_from_field f)))
      (crates.checksum (crc_input j.bytes (bytes_from_field f))) j.bytes (bytes_from_field f)
    ∙ omega arith
length-record_bytes crates (dead a b) =
    length-frame (replicate 4 0) a b 0 (replicate a 0) (replicate b 0)
    ∙ omega (arith, length-replicate {A = ℕ} a 0, length-replicate {A = ℕ} b 0)

pub length-records_bytes :
    (crates : Crates) (rs : List DiskRecord) → length (records_bytes crates rs) ≡ sizes rs
length-records_bytes crates [] = refl
length-records_bytes crates (r ∷ rs) =
    length-append (record_bytes crates r) (records_bytes crates rs)
    ∙ omega (arith, length-record_bytes crates r, length-records_bytes crates rs)

pub records_bytes-append :
    (crates : Crates) (rs : List DiskRecord) (r : DiskRecord)
    → records_bytes crates (rs ++ r ∷ []) ≡ records_bytes crates rs ++ record_bytes crates r
records_bytes-append crates [] r = append-nil (record_bytes crates r)
records_bytes-append crates (q ∷ rs) r =
    ap (λ t. record_bytes crates q ++ t) (records_bytes-append crates rs r)
    ∙ sym (append_assoc (record_bytes crates q) (records_bytes crates rs) (record_bytes crates r))

-- The entry that the index should have of a key: its last live record, by position.
abbrev pub locate : Key → ℕ → List DiskRecord → Option IndexEntry → Option IndexEntry
locate k pos [] held = held
locate k pos (live j f ∷ rs) held =
    locate k (pos + size (live j f)) rs (if key_eq j k then some (index_entry pos j f) else held)
locate k pos (dead a b ∷ rs) held = locate k (pos + size (dead a b)) rs held

pub locate-append :
    (k j : Key) (f : Field) (pos : ℕ) (rs : List DiskRecord) (held : Option IndexEntry)
    → locate k pos (rs ++ live j f ∷ []) held
      ≡ (if key_eq j k then some (index_entry (pos + sizes rs) j f) else locate k pos rs held)
locate-append k j f pos [] held =
    ap (λ p. if key_eq j k then some (index_entry p j f) else held) (omega arith)
locate-append k j f pos (live i g ∷ rs) held =
    locate-append k j f (pos + size (live i g)) rs
      (if key_eq i k then some (index_entry pos i g) else held)
    ∙ ap
        (λ p.
          if key_eq j k
          then some (index_entry p j f)
          else locate k (pos + size (live i g)) rs
              (if key_eq i k then some (index_entry pos i g) else held))
        (omega arith)
locate-append k j f pos (dead a b ∷ rs) held =
    locate-append k j f (pos + size (dead a b)) rs held
    ∙ ap
        (λ p.
          if key_eq j k then some (index_entry p j f) else locate k (pos + size (dead a b)) rs held)
        (omega arith)

pub locate-none :
    (k : Key) (pos : ℕ) (rs : List DiskRecord) (held : Option IndexEntry)
    → lives k rs ≡ 0
    → locate k pos rs held ≡ held
locate-none k pos [] held h = refl
locate-none k pos (dead a b ∷ rs) held h = locate-none k (pos + size (dead a b)) rs held h
locate-none k pos (live j f ∷ rs) held h = elim (Bool-cases (key_eq j k)) [
  | inl e ↦ absurd (ground arith)
  | inr e ↦ rw e (locate-none k (pos + size (live j f)) rs held (ground arith))
]

pub size-killed :
    (j : Key) (f : Field)
    → IsRecord (live j f)
    → size (dead (as_u16 (Key.len j)) (as_u32 (length (bytes_from_field f)))) ≡ size (live j f)
size-killed j f (short, (valid, small)) = omega arith

pub sizes-append :
    (rs : List DiskRecord) (r : DiskRecord) → sizes (rs ++ r ∷ []) ≡ sizes rs + size r
sizes-append [] r = omega arith
sizes-append (q ∷ rs) r = omega (arith, sizes-append rs r)

pub sizes-kill : (k : Key) (rs : List DiskRecord) → All IsRecord rs → sizes (kill k rs) ≡ sizes rs
sizes-kill k [] hs = refl
sizes-kill k (dead a b ∷ rs) (h, hs) = omega (arith, sizes-kill k rs hs)
sizes-kill k (live j f ∷ rs) (h, hs) = elim (Bool-cases (key_eq j k)) [
  | inl e ↦ rw e (omega (arith, size-killed j f h, sizes-kill k rs hs))
  | inr e ↦ rw e (omega (arith, sizes-kill k rs hs))
]

pub locate-kill :
    (k j : Key) (pos : ℕ) (rs : List DiskRecord) (held : Option IndexEntry)
    → All IsRecord rs
    → locate k pos (kill j rs) held ≡ (if key_eq j k then held else locate k pos rs held)
locate-kill k j pos [] held h = ground arith
locate-kill k j pos (dead a b ∷ rs) held (h, hs) =
    locate-kill k j (pos + size (dead a b)) rs held hs
locate-kill k j pos (live i g ∷ rs) held (h, hs) = elim (Bool-cases (key_eq i j)) [
  | inl e ↦ rw e (
      ap (λ n. locate k (pos + n) (kill j rs) held) (size-killed i g h)
      ∙ locate-kill k j (pos + size (live i g)) rs held hs
      ∙ ground (arith, key_eq_congr i j k))
  | inr e ↦ rw e (
      locate-kill k j (pos + size (live i g)) rs
        (if key_eq i k then some (index_entry pos i g) else held) hs
      ∙ ground (arith, key_eq_congr_right j k i))
]
