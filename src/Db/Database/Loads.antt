-- ===== src/Db/Database/Loads.antt =====
-- What the files that `Database::flush` of src/db/db.rs leaves load as, by `init` of the same file.
use peach_db.Base.{ℕ, ◌+◌, ◌<◌, ◌^◌, ◌≡◌, ◌≢◌, sym, ◌∙◌, none, List, [], ◌∷◌, ◌++◌, arith, All}
use peach_db.Base.Words.{Bytes, to_le_bytes}
use peach_db.Base.HashMap
use peach_db.Base.HashMap.{HashMap, key_eq, key_eq_refl}
use peach_db.Base.HashMap.Laws.{insert-IsDistinct}
use peach_db.Error.{ok}
use peach_db.Cursor.{Crates}
use peach_db.Dtypes.Key.{Key}
use peach_db.Db.IndexCodec.{IndexEntry}
use peach_db.Db.IndexCodec.RoundTrip.{
  IsIndexEntry, index_bytes, insert_all, get-insert_all_empty, decode_index-index_bytes,
}
use peach_db.Db.Records.{DiskRecord, live, dead, IsRecord, records_bytes}
use peach_db.Db.Records.Header.{header_bytes}
use peach_db.Db.Database.Open.{load_index}
use peach_db.Db.Database.Flush.{index_entry}
use peach_db.Db.Database.Located.{lives, locate, size}
use peach_db.Db.Database.ScanRecord.{IsNamed, index_of, get-index_of}
use peach_db.Db.Database.Scan.{index_from_db-records_bytes}
use peach_db.Db.Database.Killed.{locate-eq-none}

insert_all-IsDistinct :
    (m es : HashMap IndexEntry) → HashMap.IsDistinct m → HashMap.IsDistinct (insert_all m es)
insert_all-IsDistinct m [] h = h
insert_all-IsDistinct m ((k, e) ∷ es) h =
    insert_all-IsDistinct (HashMap.insert k e m) es (insert-IsDistinct k e m h)

index_of-IsDistinct :
    (pos : ℕ) (rs : List DiskRecord) (m : HashMap IndexEntry)
    → HashMap.IsDistinct m
    → HashMap.IsDistinct (index_of pos rs m)
index_of-IsDistinct pos [] m h = h
index_of-IsDistinct pos (dead a b ∷ rs) m h = index_of-IsDistinct (pos + size (dead a b)) rs m h
index_of-IsDistinct pos (live j f ∷ rs) m h =
    index_of-IsDistinct (pos + size (live j f)) rs (HashMap.insert j (index_entry pos j f) m)
      (insert-IsDistinct j (index_entry pos j f) m h)

no_lives-IsNamed : (rs : List DiskRecord) → ((k : Key) → lives k rs ≡ 0) → All IsNamed rs
no_lives-IsNamed [] none_live = tt
no_lives-IsNamed (dead a b ∷ rs) none_live = (tt, no_lives-IsNamed rs none_live)
no_lives-IsNamed (live j f ∷ rs) none_live = absurd (one_live (none_live j))
  where
    one_live : lives j (live j f ∷ rs) ≢ 0
    one_live = rw (key_eq_refl j) (λ h. omega (arith, h))

-- What `init` makes of the index file: its entries, or the records where it is empty.
pub record Loads (crates : Crates) (db_bytes index_file : Bytes) (rs : List DiskRecord)
    : Type 0 where
  pub loaded : HashMap IndexEntry
  pub is_loaded : load_index crates db_bytes index_file ≡ ok loaded
  pub distinct : HashMap.IsDistinct loaded
  pub located : (k : Key) → HashMap.get k loaded ≡ locate k 114 rs none

pub load_index-Loads :
    (crates : Crates) (n : ℕ) (name : Bytes) (rs : List DiskRecord) (es : HashMap IndexEntry)
    → n < 2 ^ 64
    → All IsRecord rs
    → HashMap.IsDistinct es
    → All IsIndexEntry es
    → ((k : Key) → HashMap.get k es ≡ locate k 114 rs none)
    → Loads crates (header_bytes n name ++ records_bytes crates rs) (index_bytes es) rs
unfolding load_index to_le_bytes HashMap.get
load_index-Loads crates n name rs [] fits hs distinct valid located = record {
  loaded = index_of 114 rs [];
  is_loaded =
      index_from_db-records_bytes crates n name rs fits hs
        (no_lives-IsNamed rs λ k. (locate-eq-none k 114 rs none (sym (located k))).1);
  distinct = index_of-IsDistinct 114 rs [] tt;
  located = λ k. get-index_of k 114 rs [];
}
load_index-Loads crates n name rs (e ∷ es) fits hs distinct valid located = record {
  loaded = insert_all [] (e ∷ es);
  is_loaded = decode_index-index_bytes crates (e ∷ es) valid;
  distinct = insert_all-IsDistinct [] (e ∷ es) tt;
  located = λ k. get-insert_all_empty k (e ∷ es) distinct ∙ located k;
}
