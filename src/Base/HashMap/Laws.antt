-- ===== src/Base/HashMap/Laws.antt =====
-- Lookups after an insertion and a removal.
use peach_db.Base.Tests.{if◌then◌else◌, Bool-cases}
use peach_db.Base.HashMap.{HashMap, get, insert, remove, key_eq, key_eq→eq, key_eq_refl, IsDistinct}
use peach_db.Dtypes.Key.{Key}
use mathlib.Core.Path.{◌≡◌, refl, sym, ap, ◌∙◌}
use mathlib.Core.Bool.{true, false}
use mathlib.Core.Logic.{inl, inr}
use mathlib.Core.Option.{some, none}
use mathlib.Core.List.{[], ◌∷◌}
use native.Mathlib.Omega.{arith}

-- Equal keys are equal to the same keys.
pub key_eq_congr : (a b c : Key) → key_eq a b ≡ true → key_eq a c ≡ key_eq b c
key_eq_congr a b c h = rw (key_eq→eq a b h)

pub key_eq_congr_right : (a b c : Key) → key_eq a b ≡ true → key_eq c a ≡ key_eq c b
key_eq_congr_right a b c h = rw (key_eq→eq a b h)

module _ {ℓ} {V : Type ℓ} where
  pub get-insert :
      (k j : Key) (v : V) (m : HashMap V)
      → get j (insert k v m) ≡ (if key_eq k j then some v else get j m)
  unfolding get insert
  get-insert k j v [] = refl
  get-insert k j v ((i, w) ∷ m) =
      ground
        (arith, key_eq→eq i k, key_eq_congr i k j, key_eq_congr_right k j i, get-insert k j v m)

  pub get-remove :
      (k j : Key) (m : HashMap V) → get j (remove k m) ≡ (if key_eq k j then none else get j m)
  unfolding get remove
  get-remove k j [] = ground arith
  get-remove k j ((i, w) ∷ m) =
      ground (arith, key_eq_congr i k j, key_eq_congr_right k j i, get-remove k j m)

pub key_eq_symm : (a b : Key) → key_eq a b ≡ false → key_eq b a ≡ false
key_eq_symm a b h = elim (Bool-cases (key_eq b a)) [
  | inl same ↦ cc (h, ap (λ t. key_eq t b) (key_eq→eq b a same), key_eq_refl b)
  | inr other ↦ other
]

module _ {ℓ} {V : Type ℓ} where
  -- An insertion into a map in which no key stands twice gives such a map.
  pub insert-IsDistinct :
      (k : Key) (v : V) (m : HashMap V) → IsDistinct m → IsDistinct (insert k v m)
  unfolding insert get
  insert-IsDistinct k v [] h = (refl, tt)
  insert-IsDistinct k v ((j, w) ∷ m) (fresh, rest) = elim (Bool-cases (key_eq j k)) [
    | inl same ↦ rw same (ap (λ t. get t m) (sym (key_eq→eq j k same)) ∙ fresh, rest)
    | inr other ↦
        rw other
          (get-insert k j v m ∙ rw (key_eq_symm j k other) fresh, insert-IsDistinct k v m rest)
  ]
