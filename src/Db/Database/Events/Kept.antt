-- ===== src/Db/Database/Events/Kept.antt =====
-- What every `flush` and every new opening of src/db/db.rs keeps of a database on which more is to come.
use peach_db.Base.{
  ◌+◌, ◌≤◌, ◌<◌, ◌^◌, ◌≡◌, refl, sym, ap, ◌∙◌, subst, arith, none, List, [], ◌∷◌, length,
}
use peach_db.Base.Words.{Bytes}
use peach_db.Base.HashMap
use peach_db.Base.HashMap.{HashMap}
use peach_db.Error.{ok}
use peach_db.Cursor.{Crates}
use peach_db.Dtypes.Key.{Key}
use peach_db.Db.WalCodec.{WalEntry}
use peach_db.Db.System.{System}
use peach_db.Db.Database.{Iteration, get}
use peach_db.Db.Database.Open.{open_database}
use peach_db.Db.Database.Reopen.{crash, reopened, reopened-IsDurable, open_database-eq-reopened}
use peach_db.Db.Database.Flush.{net_entries, flush}
use peach_db.Db.Database.FlushReads.{net, net-IsDistinct, get-flush}
use peach_db.Db.Database.FlushDone.{length-flush, flushed, flush-flushed, log-IsNet}
use peach_db.Db.Database.FlushDurable.{after_records}
use peach_db.Db.Database.Located.{lives, sizes}
use peach_db.Db.Database.Written.{written}
use peach_db.Db.Database.Room.{log_size, sizes-written, weigh-net}
use peach_db.Db.Database.History.{found-injective}
use peach_db.Db.Database.Lives.{lives_after, lives-written}
use peach_db.Db.Database.Events.{Event, flushes, reopens, writes, IsSingle}
use peach_db.Db.Database.Events.Held.{Held, Steps, once}

module _ (crates : Crates) (it : Iteration) (name : Bytes) where
  module _ (todo : List Event) (s : System) (h : Held crates it name (flushes ∷ todo) s) where
    abbrev log : HashMap WalEntry
    log = net crates it s h.durable

    abbrev after : System
    after = flushed crates it s h.durable h.indexed h.calm (once crates it name todo s h)

    flush_few : (k : Key) → IsSingle k none (lives k (written log h.durable.records)) todo
    unfolding net HashMap.get
    flush_few k =
        subst (λ n. IsSingle k none n todo)
          (sym (
            lives-written k log h.durable.records (net-IsDistinct crates it s h.durable)
              (log-IsNet crates it s h.durable h.indexed h.calm (once crates it name todo s h))
            ∙ ap (λ o. lives_after o (lives k h.durable.records))
                (it.get-order WalEntry (net_entries s.entries []) k)))
          (h.few k).1

    flush_room :
        114 + (sizes (written log h.durable.records) + (log_size [] + log_size (writes todo)))
        < 2 ^ 64
    unfolding net
    flush_room = omega (
      arith,
      h.room,
      sizes-written log h.durable.records
          (log-IsNet crates it s h.durable h.indexed h.calm (once crates it name todo s h))
          h.durable.records_valid,
      weigh-net it s.entries,
    )

    flush-Held : flush crates it s ≡ (ok tt, after) → Held crates it name todo after
    flush-Held done =
        let (durable', indexed', same) =
          after_records crates it s h.durable h.indexed h.calm (once crates it name todo s h)
            (subst (λ r. length r.1.db_file < 2 ^ 64) done near) in
        record {
          durable = durable';
          indexed = indexed';
          calm = h.calm;
          few = λ k. unfold HashMap.get net_entries in rw same (flush_few k);
          room = rw same flush_room;
        }
      where
        near : length (flush crates it s).1.db_file < 2 ^ 64
        near = omega (
          arith,
          flush_room,
          length-flush crates it s h.durable h.indexed h.calm (once crates it name todo s h),
        )

    pub flush-Steps : Steps crates it name [] todo s (flush crates it s)
    flush-Steps = record {
      succeeds = ap (λ r. r.0) done;
      held = subst (λ t. Held crates it name todo t.1) (sym done) (flush-Held done);
      view = λ k. found-injective _ _ (unfold get in get-flush crates it s h.durable k);
    }
      where
        done : flush crates it s ≡ (ok tt, after)
        done = flush-flushed crates it s h.durable h.indexed h.calm (once crates it name todo s h)

  module _ (todo : List Event) (s : System) (h : Held crates it name (reopens ∷ todo) s) where
    pub reopen-Steps :
        length name ≤ 64 → Steps crates it name [] todo s (open_database crates name (crash s))
    unfolding reopened reopened-IsDurable
    reopen-Steps short =
        subst (λ r. Steps crates it name [] todo s r)
          (sym (open_database-eq-reopened crates s h.durable name short)) reopened-Steps
      where
        reopened-Held : Held crates it name todo (reopened crates s h.durable)
        reopened-Held = record {
          durable = reopened-IsDurable crates s h.durable;
          indexed = record {
            distinct = h.indexed.loaded_distinct;
            located = h.indexed.loaded;
            loaded_distinct = h.indexed.loaded_distinct;
            loaded = h.indexed.loaded;
          };
          calm = refl;
          few = h.few;
          room = h.room;
        }

        reopened-Steps : Steps crates it name [] todo s (ok tt, reopened crates s h.durable)
        reopened-Steps = record {
          succeeds = refl;
          held = reopened-Held;
          view = λ k. sym (h.durable.view k);
        }
