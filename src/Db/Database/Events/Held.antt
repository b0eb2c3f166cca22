-- ===== src/Db/Database/Events/Held.antt =====
-- What every `set` and `delete` of src/db/db.rs keeps of a database on which more is to come.
use peach_db.Base.{◌+◌, ◌≤◌, ◌<◌, ◌^◌, ◌≡◌, sym, ap, ◌∙◌, subst, arith, some, List, [], ◌∷◌}
use peach_db.Base.Words.{Bytes}
use peach_db.Base.HashMap
use peach_db.Base.HashMap.{HashMap}
use peach_db.Error.{Outcome, ok}
use peach_db.Cursor.{Crates}
use peach_db.Dtypes.Key.{Key}
use peach_db.Db.WalCodec.{WalEntry, set, delete}
use peach_db.Db.WalCodec.RoundTrip.{IsEntry}
use peach_db.Db.System.{System}
use peach_db.Db.Database.{Iteration, set_key, delete_key}
use peach_db.Db.Database.Durable.{
  IsDurable, apply_entry, logged, append_entry-logged, logged-IsDurable,
}
use peach_db.Db.Database.Flush.{net_entries}
use peach_db.Db.Database.FlushDone.{IsIndexed}
use peach_db.Db.Database.Located.{lives, sizes}
use peach_db.Db.Database.Room.{log_size, log_size-append}
use peach_db.Db.Database.History.{write, write_lem, last_write, last_write-apply}
use peach_db.Db.Database.Lives.{get-net_entries-append}
use peach_db.Db.Database.Events.{Event, does, flushes, writes, IsDeletable, IsSingle}

module _ (crates : Crates) (it : Iteration) (name : Bytes) where
  -- A durable database with a right index, that can take the events to come: no flush deletes a key
  -- while two records of it are live, and the records leave room in the `.db` file.
  pub record Held (todo : List Event) (s : System) : Type 0 where
    pub durable : IsDurable crates s
    pub indexed : IsIndexed crates s durable
    pub calm : s.fates ≡ []
    pub few :
        (k : Key)
        → IsSingle k (HashMap.get k (net_entries s.entries [])) (lives k durable.records) todo
    pub room :
        114 + (sizes durable.records + (log_size s.entries + log_size (writes todo))) < 2 ^ 64

  -- What an event does to a database: it succeeds, and is in step with the specification.
  pub record Steps (w : List WalEntry) (todo : List Event) (s : System)
      (r : Outcome (Unit {0}) × System) : Type 0 where
    pub succeeds : r.0 ≡ ok tt
    pub held : Held todo r.1
    pub view : (k : Key) → HashMap.get k r.1.fields ≡ last_write k (HashMap.get k s.fields) w

  write-Held :
      (w : WalEntry) (todo : List Event) (s : System)
      → IsEntry w
      → Held (does w ∷ todo) s
      → Held todo (record (logged w s) { fields = apply_entry w s.fields })
  unfolding logged-IsDurable
  write-Held w todo s valid h = record {
    durable = logged-IsDurable crates s h.durable h.calm w valid;
    indexed = record {
      distinct = h.indexed.distinct;
      located = h.indexed.located;
      loaded_distinct = h.indexed.loaded_distinct;
      loaded = h.indexed.loaded;
    };
    calm = h.calm;
    few = λ k.
        subst (λ o. IsSingle k o (lives k h.durable.records) todo)
          (sym (get-net_entries-append k s.entries w [])) (h.few k);
    room = omega (arith, h.room, log_size-append s.entries (w ∷ []));
  }

  write-succeeds : (w : WalEntry) (s : System) → s.fates ≡ [] → (write w s).0 ≡ ok tt
  unfolding set_key delete_key
  write-succeeds (set key field) s calm = rw (append_entry-logged (set key field) s calm)
  write-succeeds (delete key) s calm = rw (append_entry-logged (delete key) s calm)

  pub write-Steps :
      (w : WalEntry) (todo : List Event) (s : System)
      → IsEntry w
      → Held (does w ∷ todo) s
      → Steps (w ∷ []) todo s (write w s)
  write-Steps w todo s valid h = record {
    succeeds = write-succeeds w s h.calm;
    held = subst (λ t. Held todo t) (sym (write_lem w s h.calm)) (write-Held w todo s valid h);
    view = λ k.
        ap (λ t. HashMap.get k t.fields) (write_lem w s h.calm) ∙ last_write-apply k w [] s.fields;
  }

  -- Before a flush, a key that the log deletes in the end has at most one live record.
  pub once :
      (todo : List Event) (s : System) (h : Held (flushes ∷ todo) s) (k : Key)
      → HashMap.get k (net_entries s.entries []) ≡ some (delete k)
      → lives k h.durable.records ≤ 1
  once todo s h k planned =
      subst (λ o. IsDeletable o (lives k h.durable.records)) planned (h.few k).0
