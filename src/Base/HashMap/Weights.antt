-- ===== src/Base/HashMap/Weights.antt =====
-- The sum of a weight over the entries of a map: it does not depend on their order.
use peach_db.Base.Tests.{if◌then◌else◌, Bool-cases}
use peach_db.Base.HashMap.{HashMap, get, insert, remove, key_eq, key_eq→eq, key_eq_refl, IsDistinct}
use peach_db.Base.HashMap.Laws.{get-remove}
use peach_db.Dtypes.Key.{Key}
use Prim.Native.Nat.{ℕ, ◌+◌, ◌≤◌}
use mathlib.Core.Path.{◌≡◌, sym, ap, ◌∙◌}
use mathlib.Core.Logic.{inl, inr}
use mathlib.Core.Option.{some}
use mathlib.Core.List.{[], ◌∷◌}
use native.Mathlib.Omega.{arith}

module _ {ℓ} {V : Type ℓ} (weight : V → ℕ) where
  abbrev pub weigh : HashMap V → ℕ
  weigh [] = 0
  weigh ((k, v) ∷ m) = weight v + weigh m

  pub weigh-insert : (k : Key) (v : V) (m : HashMap V) → weigh (insert k v m) ≤ weigh m + weight v
  unfolding insert
  weigh-insert k v [] = omega arith
  weigh-insert k v ((j, w) ∷ m) = elim (Bool-cases (key_eq j k)) [
    | inl same ↦ rw same (omega arith)
    | inr other ↦ rw other (omega (arith, weigh-insert k v m))
  ]

  weigh-remove-le : (k : Key) (m : HashMap V) → weigh (remove k m) ≤ weigh m
  unfolding remove
  weigh-remove-le k [] = omega arith
  weigh-remove-le k ((j, w) ∷ m) = elim (Bool-cases (key_eq j k)) [
    | inl same ↦ rw same (omega (arith, weigh-remove-le k m))
    | inr other ↦ rw other (omega (arith, weigh-remove-le k m))
  ]

  weigh-remove :
      (k : Key) (v : V) (m : HashMap V) → get k m ≡ some v → weigh (remove k m) + weight v ≤ weigh m
  unfolding get remove
  weigh-remove k v [] at_k = cc
  weigh-remove k v ((j, w) ∷ m) at_k = elim (Bool-cases (key_eq j k)) [
    | inl same ↦
        let here : some w ≡ some v = rw same at at_k in
        let value : w ≡ v = cc in rw same (omega (arith, weigh-remove-le k m, ap weight value))
    | inr other ↦ rw other (omega (arith, weigh-remove k v m (rw other at at_k)))
  ]

  -- A map in which no key stands twice weighs no more than a map with the same lookups.
  pub weigh-agree :
      (a b : HashMap V) → IsDistinct a → ((k : Key) → get k a ≡ get k b) → weigh a ≤ weigh b
  unfolding get
  weigh-agree [] b distinct same = omega arith
  weigh-agree ((k, v) ∷ a) b (fresh, distinct) same =
      let here : get k b ≡ some v = sym (same k) ∙ rw (key_eq_refl k) in
      omega
        (arith, weigh-remove k v b here, weigh-agree a (remove k b) distinct (rest (λ j. same j)))
    where
      rest :
          ((j : Key) → (if key_eq k j then some v else get j a) ≡ get j b)
          → (j : Key) → get j a ≡ get j (remove k b)
      rest same j = elim (Bool-cases (key_eq k j)) [
        | inl on ↦
            ap (λ t. get t a) (sym (key_eq→eq k j on)) ∙ fresh ∙ sym (get-remove k j b ∙ rw on)
        | inr off ↦
            let there : (if key_eq k j then some v else get j a) ≡ get j b = same j in
            (rw off at there) ∙ sym (get-remove k j b ∙ rw off)
      ]
