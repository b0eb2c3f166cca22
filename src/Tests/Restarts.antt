-- ===== src/Tests/Restarts.antt =====
-- The program, started on empty files, killed, and started again, at concrete inputs.
use peach_db.Base.{◌<◌, length, arith, ◌≡◌, refl, none, [], ◌∷◌, inl}
use peach_db.Error.{ok, err, io, other, unexpected_eof}
use peach_db.Dtypes.Key.{Key}
use peach_db.Db.WalCodec.{set}
use peach_db.Base.Words.{to_le_bytes}
use peach_db.Dtypes.Codec.{bytes_from_field}
use peach_db.Db.System.{fails}
use peach_db.Db.WalCodec.RoundTrip.{entry_bytes}
use peach_db.Db.Wal.{append_entry}
use peach_db.Db.Database.{get, found}
use peach_db.Db.Database.Reopen.{crash}
use peach_db.Db.Database.History.{last_write}
use peach_db.Db.Database.Unflushed.{fresh, open_database-eq-fresh}
use peach_db.Server.Run.{
  Server, new, bound, accepted, storing, Reach, start, next, bind, accept, log,
}
use peach_db.Main.{database_name, address, main, Lives, first}
use peach_db.Main.Restarts.{database_name-short, main-opened, Lives-main, Lives-append_entry}
use peach_db.Tests.Sample.{
  sample_crates, sample_iteration, sample_text, key_a, blob, key_a-short, blob-IsStored,
  empty_files,
}
use peach_db.Tests.Servers.{one, all_read, one_asks, one_bytes, appended}

abbrev born : Server
born = new address (fresh sample_crates database_name)

born-Lives : Lives sample_crates sample_text sample_iteration born []
born-Lives = first empty_files refl refl refl refl (
    main-opened sample_crates empty_files (fresh sample_crates database_name) (
      open_database-eq-fresh sample_crates database_name empty_files refl refl refl refl
        database_name-short))

-- A client has asked for a `set`, which is in the log and not in memory.
abbrev killed : Server
killed = record (accepted (inl one) (bound none born)) {
  db = (append_entry (set key_a blob) born.db).1;
  tasks = storing (set key_a blob) all_read ∷ [];
}

killed-reached :
    Reach sample_crates sample_text sample_iteration born (set key_a blob ∷ []) [] killed
unfolding bound accepted
killed-reached =
    next (next (next start (bind none refl)) (accept (inl one) refl one_bytes)) (
      log [] [] one (set key_a blob) all_read refl one_asks
        (appended (set key_a blob) born.db refl))

Lives-main_example :
    (c : Server) × (main sample_crates (crash killed.db) ≡ ok c)
    × ((k : Key) → (get k c.db).0 ≡ found (last_write k none (set key_a blob ∷ [])))
Lives-main_example = Lives-main sample_crates sample_text sample_iteration born-Lives killed-reached

entry_long : 3 < length (entry_bytes (set key_a blob))
unfolding to_le_bytes bytes_from_field
entry_long = omega arith

Lives-append_entry_example :
    main sample_crates
      (crash (append_entry (set key_a blob) (record killed.db { fates = fails other 3 ∷ [] })).1)
    ≡ err (io unexpected_eof)
Lives-append_entry_example =
    Lives-append_entry sample_crates sample_text sample_iteration (set key_a blob) 3 other
      born-Lives killed-reached (key_a-short, blob-IsStored) (omega arith) entry_long
