-- ===== src/Db/Database/Written.antt =====
-- The loop of `Database::flush` of src/db/db.rs that appends records and writes tombstones.
use peach_db.Base.{
  ℕ, ◌+◌, ◌≤◌, ◌≡◌, refl, sym, ap, ◌∙◌, false, Option, none, some, List, [], ◌∷◌, ◌++◌, arith,
  length, All,
}
use peach_db.Base.Words.{Bytes}
use peach_db.Base.HashMap
use peach_db.Base.HashMap.{HashMap, key_eq}
use peach_db.Base.HashMap.Laws.{key_eq_symm}
use peach_db.Base.HashMap.Entries.{get-eq-none}
use peach_db.Error.{ok}
use peach_db.Cursor.{Crates}
use peach_db.Dtypes.Key.{Key}
use peach_db.Dtypes.Field.{Field}
use peach_db.Db.DbDeleter
use peach_db.Db.WalCodec.{WalEntry, set, delete}
use peach_db.Db.WalCodec.RoundTrip.{IsEntry}
use peach_db.Db.IndexCodec.{IndexEntry}
use peach_db.Db.Records.{DiskRecord, live, IsRecord, records_bytes}
use peach_db.Db.System.{System}
use peach_db.Db.Database.Flush.{entry_key, index_entry, write_tombstone, write_entries}
use peach_db.Db.Database.Located.{
  lives, kill, kill-none, kill-IsRecord, append-IsRecord, lives-append, lives-kill, size, sizes,
  sizes-kill, sizes-append, locate, locate-append, locate-kill,
}
use mathlib.Core.List.{append_assoc, append-nil}
use peach_db.Db.Database.Killed.{
  locate-eq-none, write_tombstone-records_bytes, append_record-records_bytes,
}

-- The records that the loop leaves, and the index entries that it collects from position `pos` on.
abbrev pub written : HashMap WalEntry → List DiskRecord → List DiskRecord
written [] rs = rs
written ((j, set key field) ∷ net) rs = written net (rs ++ live key field ∷ [])
written ((j, delete key) ∷ net) rs = written net (kill key rs)

abbrev pub collected : HashMap WalEntry → ℕ → List (Key × IndexEntry)
collected [] pos = []
collected ((j, set key field) ∷ net) pos =
    (key, index_entry pos key field) ∷ collected net (pos + size (live key field))
collected ((j, delete key) ∷ net) pos = collected net pos

-- An entry of the net map stands under its own key, and is well formed.
abbrev pub IsNet : Key × WalEntry → Type 0
IsNet (j, entry) = (j ≡ entry_key entry) × IsEntry entry

-- The plan names the only live record of a key that is to be deleted, or the key has none.
abbrev pub IsPlanned : HashMap IndexEntry → ℕ → List DiskRecord → Key × WalEntry → Type 0
IsPlanned plan h rs (j, set key field) = Unit
IsPlanned plan h rs (j, delete key) =
    (HashMap.get key plan ≡ locate key h rs none) × (lives key rs ≤ 1)

-- A step for one key leaves the plan of every other key as it is.
abbrev AgreesOff : Key → ℕ → List DiskRecord → List DiskRecord → Type 0
AgreesOff key h rs rs' =
    (i : Key)
    → key_eq key i ≡ false
    → (locate i h rs' none ≡ locate i h rs none) × (lives i rs' ≡ lives i rs)

keep-IsPlanned :
    (plan : HashMap IndexEntry) (h : ℕ) (rs rs' : List DiskRecord) (key : Key)
    (net : HashMap WalEntry)
    → AgreesOff key h rs rs'
    → All IsNet net
    → HashMap.get key net ≡ none
    → All (IsPlanned plan h rs) net
    → All (IsPlanned plan h rs') net
keep-IsPlanned plan h rs rs' key [] same names fresh ps = tt
keep-IsPlanned plan h rs rs' key ((j, set i f) ∷ net) same (n, names) fresh (p, ps) = (
  tt,
  keep-IsPlanned plan h rs rs' key net same names (get-eq-none key j (set i f) net fresh).1 ps,
)
keep-IsPlanned plan h rs rs' key ((j, delete i) ∷ net) same ((here, e), names) fresh
      ((p, once), ps) =
    let (other, rest) = get-eq-none key j (delete i) net fresh in
    let (located, count) = same i (key_eq_symm i key (ap (λ t. key_eq t key) (sym here) ∙ other)) in
    (
      (p ∙ sym located, omega (arith, count)),
      keep-IsPlanned plan h rs rs' key net same names rest ps,
    )

append-AgreesOff :
    (key : Key) (field : Field) (h : ℕ) (rs : List DiskRecord)
    → AgreesOff key h rs (rs ++ live key field ∷ [])
append-AgreesOff key field h rs i other = (
  locate-append i key field h rs none ∙ rw other,
  lives-append i key field rs ∙ rw other (omega arith),
)

kill-AgreesOff :
    (key : Key) (h : ℕ) (rs : List DiskRecord) → All IsRecord rs → AgreesOff key h rs (kill key rs)
kill-AgreesOff key h rs hs i other =
    (locate-kill i key h rs none hs ∙ rw other, lives-kill i key rs ∙ rw other)

module _ (crates : Crates) (plan : HashMap IndexEntry) (header : Bytes) where
  delete_step :
      (key : Key) (rs : List DiskRecord) (s : System)
      → s.fates ≡ []
      → s.db_file ≡ header ++ records_bytes crates rs
      → All IsRecord rs
      → HashMap.get key plan ≡ locate key (length header) rs none
      → lives key rs ≤ 1
      → write_tombstone (HashMap.get key plan) DbDeleter.new s
        ≡ (ok DbDeleter.new, record s { db_file = header ++ records_bytes crates (kill key rs) })
  delete_step key rs s calm file hs named once = go (HashMap.get key plan) named
    where
      go :
          (o : Option IndexEntry)
          → o ≡ locate key (length header) rs none
          → write_tombstone o DbDeleter.new s ≡ (
            ok DbDeleter.new,
            record s { db_file = header ++ records_bytes crates (kill key rs) },
          )
      go none e =
          unfold write_tombstone in
          ap (λ t. (ok DbDeleter.new, record s { db_file = t }))
            (file
              ∙ ap (λ t. header ++ records_bytes crates t)
                  (sym (kill-none key rs (locate-eq-none key (length header) rs none (sym e)).1)))
      go (some i) e =
          write_tombstone-records_bytes crates key rs header [] i s hs once (sym e) calm
            (file ∙ ap (λ t. header ++ t) (sym (append-nil (records_bytes crates rs))))
          ∙ ap (λ t. (ok DbDeleter.new, record s { db_file = header ++ t }))
              (append-nil (records_bytes crates (kill key rs)))

  -- The whole loop: the records it leaves behind the header, and the index entries it returns.
  pub write_entries-written :
      (net : HashMap WalEntry) (rs : List DiskRecord) (indexes : List (Key × IndexEntry))
      (s : System)
      → s.fates ≡ []
      → s.db_file ≡ header ++ records_bytes crates rs
      → All IsRecord rs
      → HashMap.IsDistinct net
      → All IsNet net
      → All (IsPlanned plan (length header) rs) net
      → write_entries crates plan net DbDeleter.new indexes s ≡ (
        ok (indexes ++ collected net (length header + sizes rs)),
        record s { db_file = header ++ records_bytes crates (written net rs) },
      )
  unfolding write_entries
  write_entries-written [] rs indexes s calm file hs distinct names ps =
      rw (append-nil indexes, file)
  write_entries-written ((j, set key field) ∷ net) rs indexes s calm file hs (fresh, distinct)
        ((here, valid), names) (p, ps) =
      rw (append_record-records_bytes crates key field rs header s calm file) (
        write_entries-written net (rs ++ live key field ∷ []) (indexes ++ (key, e) ∷ []) t calm refl
          (append-IsRecord (live key field) rs valid hs) distinct names
          (keep-IsPlanned plan (length header) rs (rs ++ live key field ∷ []) key net
            (append-AgreesOff key field (length header) rs) names
            (ap (λ k. HashMap.get k net) (sym here) ∙ fresh) ps)
        ∙ ap (λ n. (ok ((indexes ++ (key, e) ∷ []) ++ collected net n), u))
            (omega (arith, sizes-append rs (live key field)))
        ∙ ap (λ l. (ok l, u)) (append_assoc indexes ((key, e) ∷ []) _))
    where
      e : IndexEntry
      e = index_entry (length header + sizes rs) key field

      t : System
      t = record s { db_file = header ++ records_bytes crates (rs ++ live key field ∷ []) }

      u : System
      u = record s {
        db_file = header ++ records_bytes crates (written net (rs ++ live key field ∷ []));
      }
  write_entries-written ((j, delete key) ∷ net) rs indexes s calm file hs (fresh, distinct)
        ((here, valid), names) ((named, once), ps) =
      rw (delete_step key rs s calm file hs named once) (
        write_entries-written net (kill key rs) indexes t calm refl (kill-IsRecord key rs hs)
          distinct names
          (keep-IsPlanned plan (length header) rs (kill key rs) key net
            (kill-AgreesOff key (length header) rs hs) names
            (ap (λ k. HashMap.get k net) (sym here) ∙ fresh) ps)
        ∙ ap (λ n. (ok (indexes ++ collected net (length header + n)), u)) (sizes-kill key rs hs))
    where
      t : System
      t = record s { db_file = header ++ records_bytes crates (kill key rs) }

      u : System
      u = record s { db_file = header ++ records_bytes crates (written net (kill key rs)) }
