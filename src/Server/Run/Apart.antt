-- ===== src/Server/Run/Apart.antt =====
-- Changes of different keys in src/db/db.rs, in either order.
use peach_db.Base.{
  ◌≡◌, refl, sym, ap, ◌∙◌, arith, Option, none, some, List, [], ◌∷◌, ◌++◌, All, true, false,
  Bool-cases, inl, inr, if◌then◌else◌,
}
use peach_db.Base.HashMap.{key_eq, key_eq→eq}
use peach_db.Base.HashMap.Laws.{key_eq_symm}
use peach_db.Dtypes.Key.{Key}
use peach_db.Dtypes.Field.{Field}
use peach_db.Db.WalCodec.{WalEntry, set, delete}
use peach_db.Db.Database.Flush.{entry_key}
use peach_db.Db.Database.History.{last_write-append, last_write}

-- The keys differ.
abbrev pub Differs : WalEntry → WalEntry → Type 0
Differs w v = key_eq (entry_key w) (entry_key v) ≡ false

-- No two entries are of one key.
abbrev pub IsApart : List WalEntry → Type 0
IsApart [] = Unit {0}
IsApart (u ∷ us) = All (Differs u) us × IsApart us

not_both : (a b k : Key) → key_eq a b ≡ false → key_eq a k ≡ true → key_eq b k ≡ false
not_both a b k h e = elim (Bool-cases (key_eq b k)) [
  | inl both ↦ cc (h, ap (λ t. key_eq a t) (key_eq→eq b k both), e)
  | inr other ↦ other
]

swap :
    (k : Key) (x : Option Field) (w u : WalEntry) (us : List WalEntry)
    → Differs w u
    → last_write k x (w ∷ u ∷ us) ≡ last_write k x (u ∷ w ∷ us)
swap k x (set a f) (set b g) us h = ap (λ o. last_write k o us) (ground (arith, not_both a b k h))
swap k x (set a f) (delete b) us h = ap (λ o. last_write k o us) (ground (arith, not_both a b k h))
swap k x (delete a) (set b g) us h = ap (λ o. last_write k o us) (ground (arith, not_both a b k h))
swap k x (delete a) (delete b) us h = ap (λ o. last_write k o us) (ground (arith, not_both a b k h))

-- An entry may go behind those of other keys.
pub last_write-Differs :
    (k : Key) (x : Option Field) (w : WalEntry) (us : List WalEntry)
    → All (Differs w) us
    → last_write k x (w ∷ us) ≡ last_write k (last_write k x us) (w ∷ [])
last_write-Differs k x w [] h = refl
last_write-Differs k x w (set b g ∷ us) (h, hs) =
    swap k x w (set b g) us h ∙ last_write-Differs k (if key_eq b k then some g else x) w us hs
last_write-Differs k x w (delete b ∷ us) (h, hs) =
    swap k x w (delete b) us h ∙ last_write-Differs k (if key_eq b k then none else x) w us hs

pub last_write-behind :
    (k : Key) (x : Option Field) (w : WalEntry) (p q : List WalEntry)
    → All (Differs w) q
    → last_write k x (p ++ w ∷ q) ≡ last_write k (last_write k x (p ++ q)) (w ∷ [])
last_write-behind k x w p q h =
    last_write-append k x p (w ∷ q)
    ∙ last_write-Differs k (last_write k x p) w q h
    ∙ ap (λ o. last_write k o (w ∷ [])) (sym (last_write-append k x p q))

pub last_write-before :
    (k : Key) (x : Option Field) (w : WalEntry) (p q : List WalEntry)
    → All (Differs w) p
    → last_write k x (p ++ w ∷ q) ≡ last_write k (last_write k x (w ∷ [])) (p ++ q)
last_write-before k x w p q h =
    last_write-append k x p (w ∷ q)
    ∙ last_write-append k (last_write k x p) (w ∷ []) q
    ∙ ap (λ o. last_write k o q)
        (sym (last_write-Differs k x w p h) ∙ last_write-append k x (w ∷ []) p)
    ∙ sym (last_write-append k (last_write k x (w ∷ [])) p q)

-- A key that no entry names keeps what it holds.
pub last_write-other :
    (k : Key) (x : Option Field) (us : List WalEntry)
    → All (λ u. key_eq (entry_key u) k ≡ false) us
    → last_write k x us ≡ x
last_write-other k x [] h = refl
last_write-other k x (set b g ∷ us) (h, hs) = rw h (last_write-other k x us hs)
last_write-other k x (delete b ∷ us) (h, hs) = rw h (last_write-other k x us hs)

Differs-symm : (w v : WalEntry) → Differs w v → Differs v w
Differs-symm w v h = key_eq_symm (entry_key w) (entry_key v) h

pub IsApart-insert :
    (w : WalEntry) (p q : List WalEntry)
    → IsApart (p ++ q)
    → All (Differs w) (p ++ q)
    → IsApart (p ++ w ∷ q) × All (Differs w) q
IsApart-insert w [] q h d = ((d, h), d)
IsApart-insert w (u ∷ p) q (hu, h) (du, d) =
    let (rest, last) = IsApart-insert w p q h d in ((go p hu, rest), last)
  where
    go : (p : List WalEntry) → All (Differs u) (p ++ q) → All (Differs u) (p ++ w ∷ q)
    go [] h = (Differs-symm w u du, h)
    go (v ∷ p) (h, hs) = (h, go p hs)

pub IsApart-remove :
    (w : WalEntry) (p q : List WalEntry)
    → IsApart (p ++ w ∷ q)
    → IsApart (p ++ q) × All (Differs w) p
IsApart-remove w [] q (d, h) = (h, tt)
IsApart-remove w (u ∷ p) q (hu, h) =
    let (rest, front) = IsApart-remove w p q h in
    let (du, hp) = go p hu in ((hp, rest), (Differs-symm u w du, front))
  where
    go : (p : List WalEntry) → All (Differs u) (p ++ w ∷ q) → Differs u w × All (Differs u) (p ++ q)
    go [] (h, hs) = (h, hs)
    go (v ∷ p) (h, hs) = let (d, rest) = go p hs in (d, (h, rest))
