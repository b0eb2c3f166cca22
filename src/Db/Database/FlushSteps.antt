-- ===== src/Db/Database/FlushSteps.antt =====
-- The steps of `Database::flush` of src/db/db.rs behind its loop, without faults.
use peach_db.Base.{ℕ, ◌≡◌, refl, ap, ◌∙◌, List, [], ◌++◌}
use peach_db.Base.Words.{Bytes, as_u64}
use peach_db.Base.HashMap
use peach_db.Base.HashMap.{HashMap}
use peach_db.Error.{ok}
use peach_db.Cursor.{Crates}
use peach_db.Dtypes.Key.{Key}
use peach_db.Db.DbDeleter
use peach_db.Db.WalCodec.{WalEntry}
use peach_db.Db.IndexCodec.{IndexEntry, encode_index_file, new_encoder}
use peach_db.Db.IndexCodec.RoundTrip.{index_bytes, encode_index_file-bytes}
use peach_db.Db.Records.Header.{header_bytes}
use peach_db.Db.System.{System, FileId, db_id, Exec, continue, modify, ◌>>=◌, ◌>>◌}
use peach_db.Db.FileHandler.{write_at, set_len, sync_all}
use peach_db.Db.FileHandler.Laws.{resize-zero, write_bytes-nil}
use peach_db.Db.Wal.{checkpoint, pop_uncommited_entries}
use peach_db.Db.Database.{Iteration}
use peach_db.Db.Database.Count.{update_record_count-header_bytes}
use peach_db.Db.Database.Flush.{
  plan_deletes, write_entries, update_maps, update_record_count, rebuild_index, net_entries,
  flush_records, flush,
}

rebuild_index-index_bytes :
    (it : Iteration) (s : System)
    → s.fates ≡ []
    → rebuild_index it s
      ≡ (ok tt, record s { index_file = index_bytes (it.order IndexEntry s.index) })
unfolding rebuild_index set_len write_at sync_all
rebuild_index-index_bytes it s calm =
    let bytes = (encode_index_file (it.order IndexEntry s.index) new_encoder).buffer in
    rw (calm, resize-zero s.index_file, write_bytes-nil bytes, encode_index_file-bytes)

pub checkpoint-empty :
    (s : System) → s.fates ≡ [] → checkpoint s ≡ (ok tt, record s { entries = []; wal_file = [] })
unfolding checkpoint set_len sync_all
checkpoint-empty s calm = rw (calm, resize-zero s.wal_file)

sync_all-calm : (f : FileId) (s : System) → s.fates ≡ [] → sync_all f s ≡ (ok tt, s)
unfolding sync_all
sync_all-calm f s calm = rw calm

-- A program whose first step is done goes on from there.
run-bind {ℓ κ} :
    {A : Type ℓ} {B : Type κ} (m : Exec A) (f : A → Exec B) (s : System) {a : A} {t : System}
    → m s ≡ (ok a, t)
    → (m >>= f) s ≡ f a t
run-bind m f s h = ap (λ r. continue r.0 f r.1) h

module _ (crates : Crates) (it : Iteration) (s : System) (count : ℕ) (name rest : Bytes)
    (indexes : List (Key × IndexEntry)) (calm : s.fates ≡ []) where
  abbrev net : HashMap WalEntry
  net = it.order WalEntry (net_entries s.entries [])

  abbrev plan : HashMap IndexEntry
  plan = plan_deletes s.index net []

  abbrev recorded : System
  recorded = record s { db_file = header_bytes count name ++ rest }

  abbrev mapped : System
  mapped = update_maps crates it indexes plan recorded

  -- What the loop wrote stays, under the count of the keys in memory; the index file has the new index,
  -- and the log is empty.
  abbrev pub swept : System
  swept = record mapped {
    db_file = header_bytes (as_u64 (HashMap.len mapped.fields)) name ++ rest;
    index_file = index_bytes (it.order IndexEntry mapped.index);
    wal_file = [];
    entries = [];
  }

  module _ (wrote : write_entries crates plan net DbDeleter.new [] s ≡ (ok indexes, recorded)) where
    pub flush_records-run :
        flush_records crates it s
        ≡ (ok tt, record swept { wal_file = s.wal_file; entries = s.entries })
    unfolding flush_records pop_uncommited_entries
    flush_records-run =
        run-bind (write_entries crates plan net DbDeleter.new [])
          (λ is.
            sync_all db_id
            >> (modify (update_maps crates it is plan)
                >> (update_record_count it >> rebuild_index it)))
          s wrote
        ∙ run-bind (sync_all db_id)
            (λ _.
              modify (update_maps crates it indexes plan)
              >> (update_record_count it >> rebuild_index it))
            recorded (sync_all-calm db_id recorded calm)
        ∙ run-bind (update_record_count it) (λ _. rebuild_index it) mapped
            (update_record_count-header_bytes it mapped count name rest calm refl)
        ∙ rebuild_index-index_bytes it _ calm

    pub flush-swept : flush crates it s ≡ (ok tt, swept)
    unfolding flush
    flush-swept =
        run-bind (flush_records crates it) (λ _. checkpoint) s flush_records-run
        ∙ checkpoint-empty _ calm
