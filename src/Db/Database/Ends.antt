-- ===== src/Db/Database/Ends.antt =====
-- `Database::open` of src/db/db.rs on files of any content.
use peach_db.Base.{
  ℕ, Option, none, some, ◌≢◌, List, [], ◌∷◌, ltb, ◌==◌, length, Bool, true, false, if◌then◌else◌,
}
use peach_db.Base.Words.{Bytes}
use peach_db.Error.{
  Outcome, ok, err, panic, diverged, PeachDbError, IoErrorKind, >>=-ne-diverged, db_name_to_long,
}
use peach_db.Cursor.{Crates}
use peach_db.Db.DbEncoder.{DbMeta}
use peach_db.Db.DbDecoder
use peach_db.Db.DbDecoder.{DbDecoder, decode_db_file, finish}
use peach_db.Db.DbDecoder.Inputs.{decode_db_file-ne-diverged}
use peach_db.Db.IndexCodec.Inputs.{decode_index-ne-diverged}
use peach_db.Db.IndexFromDb.Inputs.{index_from_db-ne-diverged}
use peach_db.Db.WalCodec.{decode_wal}
use peach_db.Db.WalCodec.Inputs.{decode_wal-ne-diverged}
use peach_db.Db.System.{
  System, Fate, done, fails, Exec, fated, continue, lift, gets, modify, FileId, db_id, index_id,
  wal_id, ◌>>=◌, ◌>>◌,
}
use peach_db.Db.FileHandler.{read_all, raw_set_len, raw_write_all, raw_read_to_end, raw_look}
use peach_db.Db.Wal.{open_wal, replay, pop_uncommited_entries, set_entries}
use peach_db.Db.Database.{replay_entries}
use peach_db.Db.Database.Open.{
  set_maps, new_database, decode_fields, load_index, init, new_or_init, open_files, open_database,
}

-- A program that does not run out of fuel.
abbrev Ends {ℓ} : {A : Type ℓ} → Exec A → Type ℓ
Ends m = (s : System) → (m s).0 ≢ diverged

continue-ne-diverged {ℓ κ} :
    {A : Type ℓ} {B : Type κ} (r : Outcome A) (f : A → Exec B) (s : System)
    → r ≢ diverged
    → ((a : A) → Ends (f a))
    → (continue r f s).0 ≢ diverged
continue-ne-diverged (ok a) f s h k = k a s
continue-ne-diverged (err e) f s h k = λ p. cc
continue-ne-diverged panic f s h k = λ p. cc
continue-ne-diverged diverged f s h k = λ p. h (λ i. diverged)

Ends-then {ℓ κ} :
    {A : Type ℓ} {B : Type κ} (m : Exec A) (f : A → Exec B)
    → Ends m
    → ((a : A) → Ends (f a))
    → Ends (m >>= f)
Ends-then m f h k s = continue-ne-diverged (m s).0 f (m s).1 (h s) k

fated-ne-diverged {ℓ} :
    {A : Type ℓ} (to_error : IoErrorKind → PeachDbError) (a : A) (whole : System → System)
    (part : ℕ → System → System) (fates : List Fate) (s : System)
    → (fated to_error a whole part fates s).0 ≢ diverged
fated-ne-diverged to_error a whole part [] s = λ p. cc
fated-ne-diverged to_error a whole part (done ∷ fates) s = λ p. cc
fated-ne-diverged to_error a whole part (fails kind n ∷ fates) s = λ p. cc

modify-Ends : (f : System → System) → Ends (modify f)
modify-Ends f s = λ p. cc

read_all-Ends : (f : FileId) → Ends (read_all f)
unfolding read_all
read_all-Ends f s = fated-ne-diverged _ _ _ (λ n t. t) s.fates s

raw_look-Ends : (f : FileId) → Ends (raw_look f)
unfolding raw_look
raw_look-Ends f s = fated-ne-diverged _ _ _ (λ n t. t) s.fates s

raw_read_to_end-Ends : (f : FileId) → Ends (raw_read_to_end f)
unfolding raw_read_to_end
raw_read_to_end-Ends f s = fated-ne-diverged _ _ _ (λ n t. t) s.fates s

raw_set_len-Ends : (f : FileId) (len : ℕ) → Ends (raw_set_len f len)
unfolding raw_set_len
raw_set_len-Ends f len s = fated-ne-diverged _ _ _ (λ n t. t) s.fates s

raw_write_all-Ends : (f : FileId) (bytes : Bytes) → Ends (raw_write_all f bytes)
unfolding raw_write_all
raw_write_all-Ends f bytes s = go s.fates
  where
    go : (fates : List Fate) → (raw_write_all f bytes (record s { fates = fates })).0 ≢ diverged
    go [] = λ p. cc
    go (done ∷ fates) = λ p. cc
    go (fails kind n ∷ fates) = λ p. cc

new_database-Ends : (name : Bytes) → Ends (new_database name)
unfolding new_database
new_database-Ends name = Ends-then (raw_set_len db_id 0) _ (raw_set_len-Ends db_id 0) λ _.
    Ends-then (raw_write_all db_id _) _ (raw_write_all-Ends db_id _)
      λ _. modify-Ends (set_maps [] [])

finish-ne-diverged : (d : DbDecoder) → finish d ≢ diverged
unfolding finish
finish-ne-diverged d = go d.meta
  where
    go : (meta : Option DbMeta) → finish (record d { meta = meta }) ≢ diverged
    go none = λ p. cc
    go (some m) = λ p. cc

module _ (crates : Crates) where
  decode_fields-ne-diverged : (bytes : Bytes) → decode_fields crates bytes ≢ diverged
  unfolding decode_fields
  decode_fields-ne-diverged bytes =
      >>=-ne-diverged _ _ (decode_db_file-ne-diverged crates (DbDecoder.new bytes))
        λ d _. finish-ne-diverged d

  load_index-ne-diverged : (db bytes : Bytes) → load_index crates db bytes ≢ diverged
  unfolding load_index
  load_index-ne-diverged db [] = index_from_db-ne-diverged crates db
  load_index-ne-diverged db (b ∷ bytes) = decode_index-ne-diverged crates (b ∷ bytes)

  init-Ends : Ends (init crates)
  unfolding init pop_uncommited_entries
  init-Ends = Ends-then (raw_look db_id) _ (raw_look-Ends db_id) λ db_size.
      Ends-then (raw_read_to_end db_id) _ (raw_read_to_end-Ends db_id) λ db_bytes.
        Ends-then (raw_look index_id) _ (raw_look-Ends index_id) λ index_size.
          Ends-then (raw_read_to_end index_id) _ (raw_read_to_end-Ends index_id) λ index_bytes.
            Ends-then (lift (decode_fields crates db_bytes)) _
              (λ s. decode_fields-ne-diverged db_bytes)
              λ loaded.
                Ends-then (lift (load_index crates db_bytes index_bytes)) _
                  (λ s. load_index-ne-diverged db_bytes index_bytes)
                  λ index.
                    Ends-then (gets (λ s. s.entries))
                      (λ entries. modify (set_maps (replay_entries entries loaded.0) index))
                      (λ s p. cc)
                      λ entries. modify-Ends (set_maps (replay_entries entries loaded.0) index)

  replay-Ends : Ends (replay crates)
  unfolding replay
  replay-Ends =
      Ends-then (read_all wal_id)
        (λ bytes. lift (decode_wal crates bytes) >>= λ entries. modify (set_entries entries))
        (read_all-Ends wal_id)
        λ bytes.
          Ends-then (lift (decode_wal crates bytes)) (λ entries. modify (set_entries entries))
            (λ s. decode_wal-ne-diverged crates bytes) λ entries. modify-Ends (set_entries entries)

  open_wal-Ends : Ends (open_wal crates)
  unfolding open_wal
  open_wal-Ends =
      Ends-then (raw_look wal_id) (λ size. modify (set_entries []) >> replay crates)
        (raw_look-Ends wal_id)
        λ size.
          Ends-then (modify (set_entries [])) (λ _. replay crates) (modify-Ends (set_entries []))
            λ _. replay-Ends

  if-Ends : (b : Bool) (m n : Exec (Unit {0})) → Ends m → Ends n → Ends (if b then m else n)
  if-Ends true m n hm hn = hm
  if-Ends false m n hm hn = hn

  open_files-Ends : (name : Bytes) → Ends (open_files crates name)
  unfolding open_files new_or_init
  open_files-Ends name = Ends-then (raw_look db_id) _ (raw_look-Ends db_id) λ opened_db.
      Ends-then (raw_look index_id) _ (raw_look-Ends index_id) λ opened_index.
        Ends-then (raw_look db_id) _ (raw_look-Ends db_id) λ db_size.
          Ends-then (raw_look index_id) _ (raw_look-Ends index_id) λ index_size.
            Ends-then (open_wal crates) _ open_wal-Ends λ _.
              if-Ends (db_size == 0) (new_database name) (init crates) (new_database-Ends name)
                init-Ends

  -- Whatever the three files contain, and whatever becomes of the system calls, `open` ends: the fuel of its four
  -- decoders, of the log, of the `.db` file and of the index in either form, is enough for every input.
  pub open_database-ne-diverged :
      (name : Bytes) (s : System) → (open_database crates name s).0 ≢ diverged
  unfolding open_database
  open_database-ne-diverged name =
      if-Ends (ltb 64 (length name)) (lift (err db_name_to_long)) (open_files crates name)
        (λ s p. cc) (open_files-Ends name)
