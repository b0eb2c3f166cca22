-- ===== src/Db/Database/Lives.antt =====
-- The last entry of a key in the log of src/db/db.rs, and how many of its records live after a flush.
use peach_db.Base.{
  ℕ, ◌+◌, ◌≡◌, refl, ap, ◌∙◌, arith, Option, none, some, List, [], ◌∷◌, ◌++◌, All, inl, inr,
  if◌then◌else◌, Bool-cases,
}
use peach_db.Base.HashMap
use peach_db.Base.HashMap.{HashMap, key_eq}
use peach_db.Base.HashMap.Laws.{get-insert}
use peach_db.Dtypes.Key.{Key}
use peach_db.Db.WalCodec.{WalEntry, set, delete}
use peach_db.Db.Records.{DiskRecord, live}
use peach_db.Db.Database.Flush.{entry_key, net_entries}
use peach_db.Db.Database.Located.{lives, kill, lives-append, lives-kill}
use peach_db.Db.Database.Written.{written, IsNet}
use peach_db.Db.Database.Placed.{fresh_behind}

-- The last entry of a key, after one more entry.
abbrev pub pending : Key → WalEntry → Option WalEntry → Option WalEntry
pending k w held = if key_eq (entry_key w) k then some w else held

-- How many records of a key are live after a flush that finds this last entry.
abbrev pub lives_after : Option WalEntry → ℕ → ℕ
lives_after none n = n
lives_after (some (set key field)) n = 1 + n
lives_after (some (delete key)) n = 0

pub get-net_entries-append :
    (k : Key) (es : List WalEntry) (w : WalEntry) (net : HashMap WalEntry)
    → HashMap.get k (net_entries (es ++ w ∷ []) net)
      ≡ pending k w (HashMap.get k (net_entries es net))
unfolding net_entries
get-net_entries-append k [] w net = get-insert (entry_key w) k w net
get-net_entries-append k (e ∷ es) w net =
    get-net_entries-append k es w (HashMap.insert (entry_key e) e net)

pub lives-written :
    (k : Key) (net : HashMap WalEntry) (rs : List DiskRecord)
    → HashMap.IsDistinct net
    → All IsNet net
    → lives k (written net rs) ≡ lives_after (HashMap.get k net) (lives k rs)
unfolding HashMap.get
lives-written k [] rs distinct names = refl
lives-written k ((j, set key field) ∷ net) rs (fresh, distinct) ((same, valid), names) =
    lives-written k net (rs ++ live key field ∷ []) distinct names
    ∙ rw (lives-append k key field rs, ap (λ t. key_eq t k) same)
        (elim (Bool-cases (key_eq key k)) [
          | inl e ↦ rw (e, fresh_behind j key k net same fresh e)
          | inr e ↦ rw e (ap (lives_after (HashMap.get k net)) (omega arith))
        ])
lives-written k ((j, delete key) ∷ net) rs (fresh, distinct) ((same, valid), names) =
    lives-written k net (kill key rs) distinct names
    ∙ rw (lives-kill k key rs, ap (λ t. key_eq t k) same)
        (elim (Bool-cases (key_eq key k)) [
          | inl e ↦ rw (e, fresh_behind j key k net same fresh e)
          | inr e ↦ rw e
        ])
