-- ===== src/Db/Database/Durable.antt =====
-- The files of a database under `set` and `delete` of src/db/db.rs.
use peach_db.Base.{ℕ, ◌<◌, ◌^◌, ◌≡◌, refl, sym, ap, ◌∙◌, List, [], ◌∷◌, ◌++◌, All}
use peach_db.Base.Words.{Bytes}
use peach_db.Base.HashMap
use peach_db.Base.HashMap.{HashMap, key_eq}
use peach_db.Base.HashMap.Laws.{get-insert, get-remove}
use peach_db.Error.{ok}
use peach_db.Cursor.{Crates}
use peach_db.Dtypes.Key.{Key}
use peach_db.Dtypes.Field.{Field}
use peach_db.Db.WalCodec.{WalEntry, set, delete}
use peach_db.Db.WalCodec.RoundTrip.{
  IsKey, IsStored, IsEntry, entry_bytes, log_bytes, encode_wal_entry-buffer,
}
use peach_db.Db.IndexCodec.{IndexEntry}
use peach_db.Db.Records.{DiskRecord, IsRecord, records_bytes, apply_records}
use peach_db.Db.Records.Header.{header_bytes}
use peach_db.Db.System.{System}
use peach_db.Db.FileHandler.{append, sync_all}
use peach_db.Db.Wal.{append_entry}
use peach_db.Db.Database.{set_key, delete_key, replay_entries}
use peach_db.Db.Database.Open.{load_index}
use mathlib.Core.List.{append_assoc, append-nil}

-- The files decode, and what they decode to is what memory shows.
pub record IsDurable (crates : Crates) (s : System) : Type 0 where
  pub record_count : ℕ
  pub name : Bytes
  pub records : List DiskRecord
  pub loaded : HashMap IndexEntry
  pub count_fits : record_count < 2 ^ 64
  pub records_valid : All IsRecord records
  pub entries_valid : All IsEntry s.entries
  pub db : s.db_file ≡ header_bytes record_count name ++ records_bytes crates records
  pub log : s.wal_file ≡ log_bytes s.entries
  pub index : load_index crates s.db_file s.index_file ≡ ok loaded
  pub view :
      (k : Key)
      → HashMap.get k s.fields ≡ HashMap.get k (replay_entries s.entries (apply_records [] records))

-- What one entry of the log does to the map of values.
abbrev pub apply_entry : WalEntry → HashMap Field → HashMap Field
apply_entry (set key field) fields = HashMap.insert key field fields
apply_entry (delete key) fields = HashMap.remove key fields

pub replay_entries-append :
    (entries : List WalEntry) (entry : WalEntry) (fields : HashMap Field)
    → replay_entries (entries ++ entry ∷ []) fields
      ≡ apply_entry entry (replay_entries entries fields)
unfolding replay_entries
replay_entries-append [] (set key field) fields = refl
replay_entries-append [] (delete key) fields = refl
replay_entries-append (set k f ∷ entries) entry fields =
    replay_entries-append entries entry (HashMap.insert k f fields)
replay_entries-append (delete k ∷ entries) entry fields =
    replay_entries-append entries entry (HashMap.remove k fields)

-- An entry acts on lookups alone.
pub get-apply_entry :
    (entry : WalEntry) (k : Key) (a b : HashMap Field)
    → HashMap.get k a ≡ HashMap.get k b
    → HashMap.get k (apply_entry entry a) ≡ HashMap.get k (apply_entry entry b)
get-apply_entry (set key field) k a b h = rw (get-insert key k field a, get-insert key k field b, h)
get-apply_entry (delete key) k a b h = rw (get-remove key k a, get-remove key k b, h)

pub log_bytes-append :
    (entries : List WalEntry) (entry : WalEntry)
    → log_bytes (entries ++ entry ∷ []) ≡ log_bytes entries ++ entry_bytes entry
log_bytes-append [] entry = append-nil (entry_bytes entry)
log_bytes-append (e ∷ entries) entry =
    ap (λ t. entry_bytes e ++ t) (log_bytes-append entries entry)
    ∙ sym (append_assoc (entry_bytes e) (log_bytes entries) (entry_bytes entry))

pub All-append :
    (entries : List WalEntry) (entry : WalEntry)
    → All IsEntry entries
    → IsEntry entry
    → All IsEntry (entries ++ entry ∷ [])
All-append [] entry hs h = (h, tt)
All-append (e ∷ entries) entry (he, hs) h = (he, All-append entries entry hs h)

-- The state after an entry was logged without a fault.
abbrev pub logged : WalEntry → System → System
logged entry s = record s {
  wal_file = s.wal_file ++ entry_bytes entry;
  entries = s.entries ++ entry ∷ [];
}

pub append_entry-logged :
    (entry : WalEntry) (s : System) → s.fates ≡ [] → append_entry entry s ≡ (ok tt, logged entry s)
unfolding append_entry append sync_all
append_entry-logged entry s calm = rw (calm, encode_wal_entry-buffer)

module _ (crates : Crates) (s : System) (durable : IsDurable crates s) (calm : s.fates ≡ []) where
  -- Logging an entry and applying it to the maps keeps the files in step.
  unfoldable pub logged-IsDurable :
      (entry : WalEntry)
      → IsEntry entry
      → IsDurable crates (record (logged entry s) { fields = apply_entry entry s.fields })
  logged-IsDurable entry valid = record {
    record_count = durable.record_count;
    name = durable.name;
    records = durable.records;
    loaded = durable.loaded;
    count_fits = durable.count_fits;
    records_valid = durable.records_valid;
    entries_valid = All-append s.entries entry durable.entries_valid valid;
    db = durable.db;
    log = ap (λ t. t ++ entry_bytes entry) durable.log ∙ sym (log_bytes-append s.entries entry);
    index = durable.index;
    view = λ k.
        get-apply_entry entry k _ _ (durable.view k)
        ∙ ap (HashMap.get k)
            (sym (replay_entries-append s.entries entry (apply_records [] durable.records)));
  }

  -- Without faults a `set` of a key shorter than 2 ^ 16 bytes and a well-formed value shorter than
  -- 2 ^ 32 bytes succeeds, and a durable database stays durable.
  pub set_key-IsDurable :
      (key : Key) (field : Field)
      → IsKey key
      → IsStored field
      → ((set_key key field s).0 ≡ ok tt) × IsDurable crates (set_key key field s).1
  unfolding set_key
  set_key-IsDurable key field short stored =
      rw (append_entry-logged (set key field) s calm)
        (refl, logged-IsDurable (set key field) (short, stored))

  -- Without faults a `delete` of a key shorter than 2 ^ 16 bytes succeeds, and a durable database stays
  -- durable.
  pub delete_key-IsDurable :
      (key : Key)
      → IsKey key
      → ((delete_key key s).0 ≡ ok tt) × IsDurable crates (delete_key key s).1
  unfolding delete_key
  delete_key-IsDurable key short =
      rw (append_entry-logged (delete key) s calm) (refl, logged-IsDurable (delete key) short)
