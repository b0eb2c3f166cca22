-- ===== src/Db/Database/History.antt =====
-- A sequence of `set`s and `delete`s on a `Database` of src/db/db.rs, and what it should answer.
use mathlib.Core.Path.{subst}
use peach_db.Base.{◌≡◌, refl, sym, ◌∙◌, Option, some, none, List, [], ◌∷◌, ◌++◌, All, if◌then◌else◌}
use peach_db.Base.HashMap
use peach_db.Base.HashMap.{HashMap, key_eq}
use peach_db.Base.HashMap.Laws.{get-insert, get-remove}
use peach_db.Cursor.{Crates}
use peach_db.Dtypes.Key.{Key}
use peach_db.Dtypes.Field.{Field}
use peach_db.Db.WalCodec.{WalEntry, set, delete}
use peach_db.Db.WalCodec.RoundTrip.{IsEntry}
use peach_db.Db.System.{System, Exec}
use peach_db.Db.Database.{found, set_key, delete_key}
use peach_db.Db.Database.Durable.{
  IsDurable, apply_entry, logged, append_entry-logged, logged-IsDurable,
}

-- A call of `set` or `delete`, named by the entry that it logs.
abbrev pub write : WalEntry → Exec (Unit {0})
write (set key field) = set_key key field
write (delete key) = delete_key key

abbrev pub run_writes : List WalEntry → System → System
run_writes [] s = s
run_writes (w ∷ ws) s = run_writes ws (write w s).1

-- The specification: the last write to a key says what it holds.
abbrev pub last_write : Key → Option Field → List WalEntry → Option Field
last_write k held [] = held
last_write k held (set key field ∷ ws) = last_write k (if key_eq key k then some field else held) ws
last_write k held (delete key ∷ ws) = last_write k (if key_eq key k then none else held) ws

pub write_lem :
    (w : WalEntry) (s : System)
    → s.fates ≡ []
    → (write w s).1 ≡ record (logged w s) { fields = apply_entry w s.fields }
unfolding set_key delete_key
write_lem (set key field) s calm = rw (append_entry-logged (set key field) s calm)
write_lem (delete key) s calm = rw (append_entry-logged (delete key) s calm)

pub last_write-apply :
    (k : Key) (w : WalEntry) (ws : List WalEntry) (fields : HashMap Field)
    → last_write k (HashMap.get k (apply_entry w fields)) ws
      ≡ last_write k (HashMap.get k fields) (w ∷ ws)
last_write-apply k (set key field) ws fields = rw (get-insert key k field fields)
last_write-apply k (delete key) ws fields = rw (get-remove key k fields)

pub found-injective : (a b : Option Field) → found a ≡ found b → a ≡ b
found-injective none none h = refl
found-injective none (some y) h = cc h
found-injective (some x) none h = cc h
found-injective (some x) (some y) h = cc h

pub last_write-append :
    (k : Key) (held : Option Field) (ws vs : List WalEntry)
    → last_write k held (ws ++ vs) ≡ last_write k (last_write k held ws) vs
last_write-append k held [] vs = refl
last_write-append k held (set key field ∷ ws) vs =
    last_write-append k (if key_eq key k then some field else held) ws vs
last_write-append k held (delete key ∷ ws) vs =
    last_write-append k (if key_eq key k then none else held) ws vs

module _ (crates : Crates) where
  pub run_writes-IsDurable :
      (ws : List WalEntry) (s : System)
      → IsDurable crates s
      → s.fates ≡ []
      → All IsEntry ws
      → IsDurable crates (run_writes ws s)
        × ((k : Key)
            → HashMap.get k (run_writes ws s).fields ≡ last_write k (HashMap.get k s.fields) ws)
  run_writes-IsDurable [] s durable calm hs = (durable, λ k. refl)
  run_writes-IsDurable (w ∷ ws) s durable calm (h, hs) =
      let s' : System = record (logged w s) { fields = apply_entry w s.fields } in
      let (durable', view) =
        run_writes-IsDurable ws s' (logged-IsDurable crates s durable calm w h) calm hs in
      subst
        (λ t.
          IsDurable crates (run_writes ws t)
          × ((k : Key)
              → HashMap.get k (run_writes ws t).fields
                ≡ last_write k (HashMap.get k s.fields) (w ∷ ws)))
        (sym (write_lem w s calm)) (durable', λ k. view k ∙ last_write-apply k w ws s.fields)
