-- ===== src/Db/Database/Placed.antt =====
-- What the records that `Database::flush` of src/db/db.rs leaves hold of each key, and what the index
-- then has of it.
use peach_db.Base.{
  ℕ, ◌+◌, ◌<◌, ◌^◌, ◌≡◌, refl, sym, ap, ◌∙◌, subst, true, false, Option, none, some, List, [], ◌∷◌,
  ◌++◌, arith, All, if◌then◌else◌, Bool-cases, inl, inr,
}
use peach_db.Base.HashMap
use peach_db.Base.HashMap.{HashMap, key_eq, key_eq→eq}
use peach_db.Base.HashMap.Laws.{get-insert, insert-IsDistinct}
use peach_db.Base.HashMap.Entries.{get-eq-none, insert-All, remove-IsDistinct}
use peach_db.Dtypes.Key.{Key}
use peach_db.Db.WalCodec.{WalEntry, set, delete}
use peach_db.Db.WalCodec.RoundTrip.{IsEntry}
use peach_db.Db.IndexCodec.{IndexEntry}
use peach_db.Db.IndexCodec.RoundTrip.{IsIndexEntry}
use peach_db.Db.Records.{DiskRecord, live, dead, IsRecord}
use peach_db.Db.Database.Flush.{entry_key, index_entry, net_entries, add_indexes, remove_all}
use peach_db.Db.Database.Net.{net_value, unless_held, or_else, planned}
use peach_db.Db.Database.Located.{
  kill, latest, latest-append, latest-kill, kill-IsRecord, append-IsRecord, size, sizes, sizes-kill,
  sizes-append, locate, locate-append, locate-kill,
}
use peach_db.Db.Database.Written.{written, collected, IsNet}

-- A key that stands at the head of a map stands nowhere behind it.
pub fresh_behind :
    (j key k : Key) (net : HashMap WalEntry)
    → j ≡ key
    → HashMap.get j net ≡ none
    → key_eq key k ≡ true
    → HashMap.get k net ≡ none
fresh_behind j key k net same fresh e =
    ap (λ t. HashMap.get t net) (sym (same ∙ key_eq→eq key k e)) ∙ fresh

-- The last value of a key in the records that the loop leaves.
pub latest-written :
    (k : Key) (net : HashMap WalEntry) (rs : List DiskRecord)
    → HashMap.IsDistinct net
    → All IsNet net
    → latest k (written net rs) none ≡ net_value (HashMap.get k net) (latest k rs none)
unfolding HashMap.get
latest-written k [] rs distinct names = refl
latest-written k ((j, set key field) ∷ net) rs (fresh, distinct) ((same, valid), names) =
    latest-written k net (rs ++ live key field ∷ []) distinct names
    ∙ rw (latest-append k key field rs none, ap (λ t. key_eq t k) same)
        (elim (Bool-cases (key_eq key k)) [
          | inl e ↦ rw (e, fresh_behind j key k net same fresh e)
          | inr e ↦ rw e
        ])
latest-written k ((j, delete key) ∷ net) rs (fresh, distinct) ((same, valid), names) =
    latest-written k net (kill key rs) distinct names
    ∙ rw (latest-kill k key rs none, ap (λ t. key_eq t k) same)
        (elim (Bool-cases (key_eq key k)) [
          | inl e ↦ rw (e, fresh_behind j key k net same fresh e)
          | inr e ↦ rw e
        ])

-- Where the last live record of a key stands in the end, by where it stood before.
abbrev pub placed : Key → HashMap WalEntry → ℕ → Option IndexEntry → Option IndexEntry
placed k [] pos held = held
placed k ((j, set key field) ∷ net) pos held =
    placed k net (pos + size (live key field))
      (if key_eq key k then some (index_entry pos key field) else held)
placed k ((j, delete key) ∷ net) pos held = placed k net pos (if key_eq key k then none else held)

pub locate-written :
    (k : Key) (h : ℕ) (net : HashMap WalEntry) (rs : List DiskRecord)
    → All IsRecord rs
    → All IsNet net
    → locate k h (written net rs) none ≡ placed k net (h + sizes rs) (locate k h rs none)
locate-written k h [] rs hs names = refl
locate-written k h ((j, set key field) ∷ net) rs hs ((same, valid), names) =
    locate-written k h net (rs ++ live key field ∷ [])
      (append-IsRecord (live key field) rs valid hs) names
    ∙ rw (locate-append k key field h rs none) (
        ap
          (λ p. placed k net p (
            if key_eq key k
            then some (index_entry (h + sizes rs) key field)
            else locate k h rs none))
          (omega (arith, sizes-append rs (live key field))))
locate-written k h ((j, delete key) ∷ net) rs hs ((same, valid), names) =
    locate-written k h net (kill key rs) (kill-IsRecord key rs hs) names
    ∙ rw (locate-kill k key h rs none hs, sizes-kill key rs hs)

-- Behind the last entry of a key nothing changes for it.
placed-unnamed :
    (k : Key) (net : HashMap WalEntry) (pos : ℕ) (held : Option IndexEntry)
    → All IsNet net
    → HashMap.get k net ≡ none
    → placed k net pos held ≡ held
placed-unnamed k [] pos held names absent = refl
placed-unnamed k ((j, set key field) ∷ net) pos held ((same, valid), names) absent =
    let (other, rest) = get-eq-none k j (set key field) net absent in
    rw (ap (λ t. key_eq t k) (sym same) ∙ other) (placed-unnamed k net _ held names rest)
placed-unnamed k ((j, delete key) ∷ net) pos held ((same, valid), names) absent =
    let (other, rest) = get-eq-none k j (delete key) net absent in
    rw (ap (λ t. key_eq t k) (sym same) ∙ other) (placed-unnamed k net _ held names rest)

get-add_indexes_unnamed :
    (k : Key) (net : HashMap WalEntry) (pos : ℕ) (m : HashMap IndexEntry)
    → All IsNet net
    → HashMap.get k net ≡ none
    → HashMap.get k (add_indexes (collected net pos) m) ≡ HashMap.get k m
unfolding add_indexes
get-add_indexes_unnamed k [] pos m names absent = refl
get-add_indexes_unnamed k ((j, set key field) ∷ net) pos m ((same, valid), names) absent =
    let (other, rest) = get-eq-none k j (set key field) net absent in
    get-add_indexes_unnamed k net _ (HashMap.insert key (index_entry pos key field) m) names rest
    ∙ get-insert key k (index_entry pos key field) m
    ∙ rw (ap (λ t. key_eq t k) (sym same) ∙ other)
get-add_indexes_unnamed k ((j, delete key) ∷ net) pos m ((same, valid), names) absent =
    get-add_indexes_unnamed k net pos m names (get-eq-none k j (delete key) net absent).1

drop_held : (o : Option IndexEntry) → unless_held (or_else o none) o ≡ none
drop_held none = refl
drop_held (some e) = refl

-- What the index holds of a key when the planned keys are out and the new entries in.
pub get-add_indexes :
    (k : Key) (net : HashMap WalEntry) (pos : ℕ) (index m : HashMap IndexEntry)
    → HashMap.IsDistinct net
    → All IsNet net
    → HashMap.get k m ≡ HashMap.get k index
    → unless_held
        (planned index k (HashMap.get k net) none)
        (HashMap.get k (add_indexes (collected net pos) m))
      ≡ placed k net pos (HashMap.get k m)
unfolding add_indexes HashMap.get
get-add_indexes k [] pos index m distinct names before = refl
get-add_indexes k ((j, set key field) ∷ net) pos index m (fresh, distinct) ((same, valid), names)
      before =
    rw (ap (λ t. key_eq t k) same) (elim (Bool-cases (key_eq key k)) [
      | inl e ↦
          let absent = fresh_behind j key k net same fresh e in
          rw e (
            get-add_indexes_unnamed k net _ m' names absent
            ∙ at_k
            ∙ branch e
            ∙ sym (placed-unnamed k net _ (some (index_entry pos key field)) names absent))
      | inr e ↦
          let kept = at_k ∙ other e in
          rw e (
            get-add_indexes k net _ index m' distinct names (kept ∙ before)
            ∙ ap (placed k net _) kept)
    ])
  where
    m' : HashMap IndexEntry
    m' = HashMap.insert key (index_entry pos key field) m

    at_k :
        HashMap.get k m'
        ≡ (if key_eq key k then some (index_entry pos key field) else HashMap.get k m)
    at_k = get-insert key k (index_entry pos key field) m

    branch :
        key_eq key k ≡ true
        → (if key_eq key k then some (index_entry pos key field) else HashMap.get k m)
          ≡ some (index_entry pos key field)
    branch e = rw e

    other :
        key_eq key k ≡ false
        → (if key_eq key k then some (index_entry pos key field) else HashMap.get k m)
          ≡ HashMap.get k m
    other e = rw e
get-add_indexes k ((j, delete key) ∷ net) pos index m (fresh, distinct) ((same, valid), names)
      before =
    rw (ap (λ t. key_eq t k) same) (elim (Bool-cases (key_eq key k)) [
      | inl e ↦
          let absent = fresh_behind j key k net same fresh e in
          rw (e, get-add_indexes_unnamed k net pos m names absent, before)
            (drop_held (HashMap.get k index) ∙ sym (placed-unnamed k net pos none names absent))
      | inr e ↦ rw e (get-add_indexes k net pos index m distinct names before)
    ])

pub net_entries-IsNet :
    (entries : List WalEntry) (net : HashMap WalEntry)
    → All IsEntry entries
    → All IsNet net
    → All IsNet (net_entries entries net)
unfolding net_entries
net_entries-IsNet [] net valid names = names
net_entries-IsNet (entry ∷ entries) net (v, valid) names =
    net_entries-IsNet entries (HashMap.insert (entry_key entry) entry net) valid
      (insert-All IsNet (entry_key entry) entry net (refl, v) names)

pub written-IsRecord :
    (net : HashMap WalEntry) (rs : List DiskRecord)
    → All IsNet net
    → All IsRecord rs
    → All IsRecord (written net rs)
written-IsRecord [] rs names hs = hs
written-IsRecord ((j, set key field) ∷ net) rs ((same, valid), names) hs =
    written-IsRecord net (rs ++ live key field ∷ []) names
      (append-IsRecord (live key field) rs valid hs)
written-IsRecord ((j, delete key) ∷ net) rs (name, names) hs =
    written-IsRecord net (kill key rs) names (kill-IsRecord key rs hs)

pub add_indexes-IsDistinct :
    (indexes : List (Key × IndexEntry)) (m : HashMap IndexEntry)
    → HashMap.IsDistinct m
    → HashMap.IsDistinct (add_indexes indexes m)
unfolding add_indexes
add_indexes-IsDistinct [] m h = h
add_indexes-IsDistinct ((k, i) ∷ indexes) m h =
    add_indexes-IsDistinct indexes (HashMap.insert k i m) (insert-IsDistinct k i m h)

pub remove_all-IsDistinct {ℓ} :
    {V : Type ℓ} (ks : List Key) (m : HashMap V)
    → HashMap.IsDistinct m
    → HashMap.IsDistinct (remove_all ks m)
unfolding remove_all
remove_all-IsDistinct [] m h = h
remove_all-IsDistinct (k ∷ ks) m h =
    remove_all-IsDistinct ks (HashMap.remove k m) (remove-IsDistinct k m h)

-- Where records are well formed and the file is short enough, the place of a record fits the index.
pub locate-IsIndexEntry :
    (k : Key) (pos : ℕ) (rs : List DiskRecord) (held : Option IndexEntry) (e : IndexEntry)
    → All IsRecord rs
    → pos + sizes rs < 2 ^ 64
    → ((i : IndexEntry) → held ≡ some i → IsIndexEntry (k, i))
    → locate k pos rs held ≡ some e
    → IsIndexEntry (k, e)
locate-IsIndexEntry k pos [] held e hs near before at_k = before e at_k
locate-IsIndexEntry k pos (dead a b ∷ rs) held e (h, hs) near before at_k =
    locate-IsIndexEntry k (pos + size (dead a b)) rs held e hs (omega arith) before at_k
locate-IsIndexEntry k pos (live j f ∷ rs) held e ((short, (valid, small)), hs) near before at_k =
    locate-IsIndexEntry k (pos + size (live j f)) rs
      (if key_eq j k then some (index_entry pos j f) else held) e hs (omega arith)
      (λ i. elim (Bool-cases (key_eq j k)) [
        | inl same ↦ rw same (λ p. here i (key_eq→eq j k same) (cc p))
        | inr other ↦ rw other (before i)
      ])
      at_k
  where
    here : (i : IndexEntry) → j ≡ k → index_entry pos j f ≡ i → IsIndexEntry (k, i)
    here i same p =
        subst (λ t. IsIndexEntry (k, t)) p
          (subst (λ t. IsIndexEntry (t, index_entry pos j f)) same
            (omega arith, omega arith, omega arith, omega arith))
