-- ===== src/Db/Database/Keeps.antt =====
-- Programs of src/db/db.rs under which a lookup in memory stays the same.
use peach_db.Base.{ℕ, ◌≡◌, refl, Option, none, some, List, [], ◌∷◌, ◌++◌}
use peach_db.Base.Words.{Bytes, as_u64, to_le_bytes}
use peach_db.Base.HashMap
use peach_db.Base.HashMap.{HashMap, key_eq}
use peach_db.Error.{Outcome, ok, err, panic, diverged}
use peach_db.Cursor.{Crates}
use peach_db.Dtypes.Key.{Key}
use peach_db.Dtypes.Field.{Field}
use peach_db.Db.DbEncoder.{encode}
use peach_db.Db.DbDeleter
use peach_db.Db.DbDeleter.{DbDeleter, get_deleted_field}
use peach_db.Db.WalCodec.{WalEntry, set, delete}
use peach_db.Db.IndexCodec.{IndexEntry, encode_index_file, new_encoder}
use peach_db.Db.System.{
  System, pure, lift, FileId, db_id, index_id, wal_id, Exec, Fate, done, fails, continue, ◌>>=◌,
  ◌>>◌,
}
use peach_db.Db.FileHandler.{write_at, append, set_len, sync_all}
use peach_db.Db.Wal.{checkpoint}
use peach_db.Db.Database.{Iteration, record_count_offset}
use peach_db.Db.Database.Flush.{
  index_entry, write_tombstone, append_record, write_entries, update_record_count, rebuild_index,
}

-- A system call changes no value in memory.
pub write_at-fields :
    (f : FileId) (pos : ℕ) (bytes : Bytes) (s : System)
    → (write_at f pos bytes s).1.fields ≡ s.fields
unfolding write_at
write_at-fields f pos bytes s = go f s.fates
  where
    go :
        (f : FileId) (fates : List Fate)
        → (write_at f pos bytes (record s { fates = fates })).1.fields ≡ s.fields
    go db_id [] = refl
    go index_id [] = refl
    go wal_id [] = refl
    go db_id (done ∷ fates) = refl
    go index_id (done ∷ fates) = refl
    go wal_id (done ∷ fates) = refl
    go db_id (fails kind n ∷ fates) = refl
    go index_id (fails kind n ∷ fates) = refl
    go wal_id (fails kind n ∷ fates) = refl

pub append-fields :
    (f : FileId) (bytes : Bytes) (s : System) → (append f bytes s).1.fields ≡ s.fields
unfolding append
append-fields f bytes s = go f s.fates
  where
    go :
        (f : FileId) (fates : List Fate)
        → (append f bytes (record s { fates = fates })).1.fields ≡ s.fields
    go db_id [] = refl
    go index_id [] = refl
    go wal_id [] = refl
    go db_id (done ∷ fates) = refl
    go index_id (done ∷ fates) = refl
    go wal_id (done ∷ fates) = refl
    go db_id (fails kind n ∷ fates) = refl
    go index_id (fails kind n ∷ fates) = refl
    go wal_id (fails kind n ∷ fates) = refl

pub set_len-fields : (f : FileId) (len : ℕ) (s : System) → (set_len f len s).1.fields ≡ s.fields
unfolding set_len
set_len-fields f len s = go f s.fates
  where
    go :
        (f : FileId) (fates : List Fate)
        → (set_len f len (record s { fates = fates })).1.fields ≡ s.fields
    go db_id [] = refl
    go index_id [] = refl
    go wal_id [] = refl
    go db_id (done ∷ fates) = refl
    go index_id (done ∷ fates) = refl
    go wal_id (done ∷ fates) = refl
    go db_id (fails kind n ∷ fates) = refl
    go index_id (fails kind n ∷ fates) = refl
    go wal_id (fails kind n ∷ fates) = refl

pub sync_all-fields : (f : FileId) (s : System) → (sync_all f s).1.fields ≡ s.fields
unfolding sync_all
sync_all-fields f s = go f s.fates
  where
    go :
        (f : FileId) (fates : List Fate)
        → (sync_all f (record s { fates = fates })).1.fields ≡ s.fields
    go db_id [] = refl
    go index_id [] = refl
    go wal_id [] = refl
    go db_id (done ∷ fates) = refl
    go index_id (done ∷ fates) = refl
    go wal_id (done ∷ fates) = refl
    go db_id (fails kind n ∷ fates) = refl
    go index_id (fails kind n ∷ fates) = refl
    go wal_id (fails kind n ∷ fates) = refl

module _ (k : Key) (v : Option Field) where
  -- A program under which the lookup of a key stays the same.
  abbrev pub Keeps {ℓ} : {A : Type ℓ} → Exec A → Type 0
  Keeps m = (s : System) → HashMap.get k s.fields ≡ v → HashMap.get k (m s).1.fields ≡ v

  pub Keeps-after {ℓ κ} :
      {A : Type ℓ} {B : Type κ} (m : Exec A) (f : A → Exec B) (s : System)
      → HashMap.get k (m s).1.fields ≡ v
      → ((a : A) → Keeps (f a))
      → HashMap.get k ((m >>= f) s).1.fields ≡ v
  Keeps-after {A = A} m f s h hf = follow (m s).0 (m s).1 h
    where
      follow :
          (r : Outcome A) (t : System)
          → HashMap.get k t.fields ≡ v
          → HashMap.get k (continue r f t).1.fields ≡ v
      follow (ok a) t e = hf a t e
      follow (err x) t e = e
      follow panic t e = e
      follow diverged t e = e

  pub Keeps-bind {ℓ κ} :
      {A : Type ℓ} {B : Type κ} (m : Exec A) (f : A → Exec B)
      → Keeps m
      → ((a : A) → Keeps (f a))
      → Keeps (m >>= f)
  Keeps-bind m f hm hf s h = Keeps-after m f s (hm s h) hf

  pub Keeps-fields {ℓ} :
      {A : Type ℓ} (m : Exec A) → ((s : System) → (m s).1.fields ≡ s.fields) → Keeps m
  Keeps-fields m same s h = rw (same s) h

  pub Keeps-then {ℓ} :
      {B : Type ℓ} (m : Exec (Unit {0})) (n : Exec B) → Keeps m → Keeps n → Keeps (m >> n)
  Keeps-then m n hm hn = Keeps-bind m (λ _. n) hm (λ _. hn)

  pub Keeps-lift {ℓ} : {A : Type ℓ} (r : Outcome A) → Keeps (lift r)
  Keeps-lift r s h = h

  pub Keeps-append_record :
      (crates : Crates) (key : Key) (field : Field) → Keeps (append_record crates key field)
  unfolding append_record
  Keeps-append_record crates key field =
      Keeps-bind (lift (encode crates key field)) located (Keeps-lift (encode crates key field))
        λ bytes.
          Keeps-bind (append db_id bytes) entry
            (Keeps-fields (append db_id bytes) (append-fields db_id bytes)) (λ pos s h. h)
    where
      entry : ℕ → Exec (Key × IndexEntry)
      entry pos = pure (key, index_entry pos key field)

      located : Bytes → Exec (Key × IndexEntry)
      located bytes = append db_id bytes >>= entry

  pub Keeps-write_tombstone : (e : Option IndexEntry) (d : DbDeleter) → Keeps (write_tombstone e d)
  unfolding write_tombstone
  Keeps-write_tombstone none d = λ s h. h
  Keeps-write_tombstone (some e) d =
      Keeps-then (write_at db_id e.offset deleted.buffer) (pure (DbDeleter.reset deleted))
        (Keeps-fields (write_at db_id e.offset deleted.buffer)
          (write_at-fields db_id e.offset deleted.buffer))
        (λ s h. h)
    where
      deleted : DbDeleter
      deleted =
          get_deleted_field
            (DbDeleter.set_field_len e.field_len (DbDeleter.set_key_len e.key_len d))

  pub Keeps-write_entries :
      (crates : Crates) (plan : HashMap IndexEntry) (net : HashMap WalEntry) (d : DbDeleter)
      (indexes : List (Key × IndexEntry))
      → Keeps (write_entries crates plan net d indexes)
  unfolding write_entries
  Keeps-write_entries crates plan [] d indexes = λ s h. h
  Keeps-write_entries crates plan ((j, set key field) ∷ net) d indexes =
      Keeps-bind (append_record crates key field)
        (λ e. write_entries crates plan net d (indexes ++ e ∷ []))
        (Keeps-append_record crates key field)
        λ e. Keeps-write_entries crates plan net d (indexes ++ e ∷ [])
  Keeps-write_entries crates plan ((j, delete key) ∷ net) d indexes =
      Keeps-bind (write_tombstone (HashMap.get key plan) d)
        (λ d'. write_entries crates plan net d' indexes)
        (Keeps-write_tombstone (HashMap.get key plan) d)
        λ d'. Keeps-write_entries crates plan net d' indexes

  pub Keeps-update_record_count : (it : Iteration) → Keeps (update_record_count it)
  unfolding update_record_count
  Keeps-update_record_count it s =
      let count : Bytes = to_le_bytes 8 (as_u64 (HashMap.len s.fields)) in
      Keeps-fields (write_at db_id record_count_offset count)
        (write_at-fields db_id record_count_offset count) s

  pub Keeps-rebuild_index : (it : Iteration) → Keeps (rebuild_index it)
  unfolding rebuild_index
  Keeps-rebuild_index it s =
      Keeps-then (set_len index_id 0) (write_at index_id 0 bytes >> sync_all index_id)
        (Keeps-fields (set_len index_id 0) (set_len-fields index_id 0))
        (Keeps-then (write_at index_id 0 bytes) (sync_all index_id)
          (Keeps-fields (write_at index_id 0 bytes) (write_at-fields index_id 0 bytes))
          (Keeps-fields (sync_all index_id) (sync_all-fields index_id)))
        s
    where
      bytes : Bytes
      bytes = (encode_index_file (it.order IndexEntry s.index) new_encoder).buffer

  pub Keeps-checkpoint : Keeps checkpoint
  unfolding checkpoint
  Keeps-checkpoint s =
      Keeps-then (set_len wal_id 0) (sync_all wal_id)
        (Keeps-fields (set_len wal_id 0) (set_len-fields wal_id 0))
        (Keeps-fields (sync_all wal_id) (sync_all-fields wal_id)) (record s { entries = [] })
