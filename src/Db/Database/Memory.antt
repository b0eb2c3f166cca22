-- ===== src/Db/Database/Memory.antt =====
-- `get`, `set` and `delete` of src/db/db.rs in memory, under any fate of the system calls.
use peach_db.Base.{◌≡◌, ◌≢◌, refl, List, [], ◌∷◌, arith, if◌then◌else◌}
use peach_db.Base.HashMap
use peach_db.Base.HashMap.{HashMap, key_eq}
use peach_db.Base.HashMap.Laws.{get-insert, get-remove}
use peach_db.Error.{ok, err, key_not_found}
use peach_db.Dtypes.Key.{Key}
use peach_db.Dtypes.Field.{Field}
use peach_db.Db.WalCodec.{WalEntry}
use peach_db.Db.System.{System, Fate, done, fails}
use peach_db.Db.FileHandler.{append, sync_all}
use peach_db.Db.Wal.{append_entry}
use peach_db.Db.Database.{found, get, set_key, delete_key}

-- The log touches no value, and answers `ok` or an error.
append_entry-fields : (entry : WalEntry) (s : System) → (append_entry entry s).1.fields ≡ s.fields
unfolding append_entry append sync_all
append_entry-fields entry s = go s.fates
  where
    go : (fates : List Fate) → (append_entry entry (record s { fates = fates })).1.fields ≡ s.fields
    go [] = refl
    go (done ∷ []) = refl
    go (done ∷ done ∷ fates) = refl
    go (done ∷ fails kind n ∷ fates) = refl
    go (fails kind n ∷ fates) = refl

module _ (key : Key) (s : System) where
  -- An insertion shows at its own key, under `get`'s own error.
  found-insert :
      (j : Key) (field : Field)
      → found (HashMap.get j (HashMap.insert key field s.fields))
        ≡ (if key_eq key j then ok field else found (HashMap.get j s.fields))
  found-insert j field = ground (arith, get-insert key j field s.fields)

  found-remove :
      (j : Key)
      → found (HashMap.get j (HashMap.remove key s.fields))
        ≡ (if key_eq key j then err key_not_found else found (HashMap.get j s.fields))
  found-remove j = ground (arith, get-remove key j s.fields)

  -- After a `set` that succeeded, `get` of its key returns the value and `get` of any other key what
  -- it returned before.
  pub get-set_key :
      (field : Field) (j : Key)
      → (set_key key field s).0 ≡ ok tt
      → (get j (set_key key field s).1).0 ≡ (if key_eq key j then ok field else (get j s).0)
  unfolding get set_key append_entry append sync_all
  get-set_key field j = go s.fates
    where
      go :
          (fates : List Fate)
          → (set_key key field (record s { fates = fates })).0 ≡ ok tt
          → (get j (set_key key field (record s { fates = fates })).1).0
            ≡ (if key_eq key j then ok field else (get j s).0)
      go [] h = found-insert j field
      go (done ∷ []) h = found-insert j field
      go (done ∷ done ∷ fates) h = found-insert j field
      go (done ∷ fails kind n ∷ fates) h = cc
      go (fails kind n ∷ fates) h = cc

  -- After a `delete` that succeeded, `get` of its key finds nothing and `get` of any other key returns
  -- what it returned before.
  pub get-delete_key :
      (j : Key)
      → (delete_key key s).0 ≡ ok tt
      → (get j (delete_key key s).1).0 ≡ (if key_eq key j then err key_not_found else (get j s).0)
  unfolding get delete_key append_entry append sync_all
  get-delete_key j = go s.fates
    where
      go :
          (fates : List Fate)
          → (delete_key key (record s { fates = fates })).0 ≡ ok tt
          → (get j (delete_key key (record s { fates = fates })).1).0
            ≡ (if key_eq key j then err key_not_found else (get j s).0)
      go [] h = found-remove j
      go (done ∷ []) h = found-remove j
      go (done ∷ done ∷ fates) h = found-remove j
      go (done ∷ fails kind n ∷ fates) h = cc
      go (fails kind n ∷ fates) h = cc

  -- A `set` that did not succeed changes what no `get` returns.
  pub get_after_failed_set :
      (field : Field) (j : Key)
      → (set_key key field s).0 ≢ ok tt
      → (get j (set_key key field s).1).0 ≡ (get j s).0
  unfolding get set_key append_entry append sync_all
  get_after_failed_set field j = go s.fates
    where
      go :
          (fates : List Fate)
          → (set_key key field (record s { fates = fates })).0 ≢ ok tt
          → (get j (set_key key field (record s { fates = fates })).1).0 ≡ (get j s).0
      go [] h = absurd (h refl)
      go (done ∷ []) h = absurd (h refl)
      go (done ∷ done ∷ fates) h = absurd (h refl)
      go (done ∷ fails kind n ∷ fates) h = refl
      go (fails kind n ∷ fates) h = refl

  -- A `delete` that did not succeed changes what no `get` returns.
  pub get_after_failed_delete :
      (j : Key) → (delete_key key s).0 ≢ ok tt → (get j (delete_key key s).1).0 ≡ (get j s).0
  unfolding get delete_key append_entry append sync_all
  get_after_failed_delete j = go s.fates
    where
      go :
          (fates : List Fate)
          → (delete_key key (record s { fates = fates })).0 ≢ ok tt
          → (get j (delete_key key (record s { fates = fates })).1).0 ≡ (get j s).0
      go [] h = absurd (h refl)
      go (done ∷ []) h = absurd (h refl)
      go (done ∷ done ∷ fates) h = absurd (h refl)
      go (done ∷ fails kind n ∷ fates) h = refl
      go (fails kind n ∷ fates) h = refl
