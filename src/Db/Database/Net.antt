-- ===== src/Db/Database/Net.antt =====
-- The net effect of the log, and the plan of deletions, in `Database::flush` of src/db/db.rs.
use peach_db.Base.{
  ◌≡◌, refl, sym, ap, ◌∙◌, true, false, Option, none, some, List, [], ◌∷◌, arith, if◌then◌else◌,
  Bool-cases, ◌⊎◌, inl, inr,
}
use peach_db.Base.HashMap
use peach_db.Base.HashMap.{HashMap, key_eq, key_eq→eq, key_eq_refl}
use peach_db.Base.HashMap.Laws.{get-insert, get-remove, insert-IsDistinct}
use peach_db.Dtypes.Key.{Key}
use peach_db.Dtypes.Field.{Field}
use peach_db.Db.WalCodec.{WalEntry, set, delete}
use peach_db.Db.IndexCodec.{IndexEntry}
use peach_db.Db.Database.{replay_entries}
use peach_db.Db.Database.Flush.{
  entry_key, net_entries, plan_entry, plan_if_indexed, plan_deletes, remove_all,
}

-- What a key holds, by its entry in the net map and by what it held before.
abbrev pub net_value : Option WalEntry → Option Field → Option Field
net_value none held = held
net_value (some (set key field)) held = some field
net_value (some (delete key)) held = none

abbrev pub unless_held {ℓ κ} : {V : Type ℓ} {W : Type κ} → Option W → Option V → Option V
unless_held none v = v
unless_held (some w) v = none

replay-net_entries :
    (k : Key) (entries : List WalEntry) (net : HashMap WalEntry) (fields : HashMap Field)
    (held : Option Field)
    → HashMap.get k fields ≡ net_value (HashMap.get k net) held
    → HashMap.get k (replay_entries entries fields)
      ≡ net_value (HashMap.get k (net_entries entries net)) held
unfolding replay_entries net_entries
replay-net_entries k [] net fields held h = h
replay-net_entries k (set j f ∷ entries) net fields held h =
    replay-net_entries k entries (HashMap.insert j (set j f) net) (HashMap.insert j f fields) held
      (get-insert j k f fields ∙ branch (Bool-cases (key_eq j k)))
  where
    branch :
        (key_eq j k ≡ true) ⊎ (key_eq j k ≡ false)
        → (if key_eq j k then some f else HashMap.get k fields)
          ≡ net_value (HashMap.get k (HashMap.insert j (set j f) net)) held
    branch (inl e) = rw (get-insert j k (set j f) net, e)
    branch (inr e) = rw (get-insert j k (set j f) net, e) h
replay-net_entries k (delete j ∷ entries) net fields held h =
    replay-net_entries k entries (HashMap.insert j (delete j) net) (HashMap.remove j fields) held
      (get-remove j k fields ∙ branch (Bool-cases (key_eq j k)))
  where
    branch :
        (key_eq j k ≡ true) ⊎ (key_eq j k ≡ false)
        → (if key_eq j k then none else HashMap.get k fields)
          ≡ net_value (HashMap.get k (HashMap.insert j (delete j) net)) held
    branch (inl e) = rw (get-insert j k (delete j) net, e)
    branch (inr e) = rw (get-insert j k (delete j) net, e) h

-- Replaying a log and applying its net effect come to the same.
pub get-replay_entries :
    (k : Key) (entries : List WalEntry) (fields : HashMap Field)
    → HashMap.get k (replay_entries entries fields)
      ≡ net_value (HashMap.get k (net_entries entries [])) (HashMap.get k fields)
get-replay_entries k entries fields =
    replay-net_entries k entries [] fields (HashMap.get k fields) (unfold HashMap.get in refl)

pub net_entries-IsDistinct :
    (entries : List WalEntry) (net : HashMap WalEntry)
    → HashMap.IsDistinct net
    → HashMap.IsDistinct (net_entries entries net)
unfolding net_entries
net_entries-IsDistinct [] net h = h
net_entries-IsDistinct (entry ∷ entries) net h =
    net_entries-IsDistinct entries (HashMap.insert (entry_key entry) entry net)
      (insert-IsDistinct (entry_key entry) entry net h)

abbrev pub or_else {ℓ} : {V : Type ℓ} → Option V → Option V → Option V
or_else none v = v
or_else (some w) v = some w

-- A deleted key is planned with its entry in the index, and no other key is.
abbrev pub planned :
    HashMap IndexEntry → Key → Option WalEntry → Option IndexEntry → Option IndexEntry
planned index k none before = before
planned index k (some (set key field)) before = before
planned index k (some (delete key)) before = or_else (HashMap.get k index) before

get-plan_entry :
    (k j : Key) (entry : WalEntry) (index plan : HashMap IndexEntry)
    → HashMap.get k (plan_entry index j entry plan) ≡ (
        if key_eq j k
        then planned index k (some entry) (HashMap.get k plan)
        else HashMap.get k plan)
get-plan_entry k j (set key field) index plan = ground arith
get-plan_entry k j (delete key) index plan = elim (Bool-cases (key_eq j k)) [
  | inl e ↦ rw e (same (key_eq→eq j k e) (HashMap.get k index) refl)
  | inr e ↦ rw e (other e (HashMap.get j index))
]
  where
    other :
        key_eq j k ≡ false
        → (o : Option IndexEntry) → HashMap.get k (plan_if_indexed j o plan) ≡ HashMap.get k plan
    other e none = refl
    other e (some i) = get-insert j k i plan ∙ rw e

    same :
        j ≡ k
        → (o : Option IndexEntry) → HashMap.get k index ≡ o
        → HashMap.get k (plan_if_indexed j (HashMap.get j index) plan)
          ≡ planned index k (some (delete key)) (HashMap.get k plan)
    same p none at_k = rw (p, at_k)
    same p (some i) at_k = rw (p, at_k, get-insert k k i plan, key_eq_refl k)

pub get-plan_deletes :
    (k : Key) (index plan : HashMap IndexEntry) (net : HashMap WalEntry)
    → HashMap.IsDistinct net
    → HashMap.get k (plan_deletes index net plan)
      ≡ planned index k (HashMap.get k net) (HashMap.get k plan)
unfolding plan_deletes HashMap.get
get-plan_deletes k index plan [] h = refl
get-plan_deletes k index plan ((j, entry) ∷ net) (fresh, h) =
    get-plan_deletes k index (plan_entry index j entry plan) net h
    ∙ rw (get-plan_entry k j entry index plan) (branch (Bool-cases (key_eq j k)))
  where
    branch :
        (key_eq j k ≡ true) ⊎ (key_eq j k ≡ false)
        → planned index k (HashMap.get k net) (
            if key_eq j k
            then planned index k (some entry) (HashMap.get k plan)
            else HashMap.get k plan)
          ≡ planned index k
              (if key_eq j k then some entry else HashMap.get k net)
              (HashMap.get k plan)
    branch (inl e) = rw (e, ap (λ t. HashMap.get t net) (sym (key_eq→eq j k e)) ∙ fresh)
    branch (inr e) = rw e

-- Removing the keys of a map removes what the map holds, and no more.
pub get-remove_keys {ℓ κ} :
    {V : Type ℓ} {W : Type κ} (k : Key) (gone : HashMap W) (m : HashMap V)
    → HashMap.get k (remove_all (HashMap.keys gone) m)
      ≡ unless_held (HashMap.get k gone) (HashMap.get k m)
unfolding remove_all HashMap.get
get-remove_keys {W = W} k [] m = refl
get-remove_keys {W = W} k ((j, w) ∷ gone) m =
    get-remove_keys k gone (HashMap.remove j m)
    ∙ rw (get-remove j k m) (branch (HashMap.get k gone) (Bool-cases (key_eq j k)))
  where
    branch :
        (o : Option W)
        → (key_eq j k ≡ true) ⊎ (key_eq j k ≡ false)
        → unless_held o (if key_eq j k then none else HashMap.get k m)
          ≡ unless_held (if key_eq j k then some w else o) (HashMap.get k m)
    branch none (inl e) = rw e
    branch (some v) (inl e) = rw e
    branch o (inr e) = rw e
