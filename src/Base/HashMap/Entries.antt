-- ===== src/Base/HashMap/Entries.antt =====
-- What holds of every entry of a map, and of what its lookups return.
use peach_db.Base.Lists.{All}
use peach_db.Base.Tests.{if◌then◌else◌, Bool-cases}
use peach_db.Base.HashMap.{HashMap, get, insert, remove, key_eq, key_eq→eq, key_eq_refl, IsDistinct}
use peach_db.Base.HashMap.Laws.{get-remove, key_eq_congr}
use peach_db.Dtypes.Key.{Key}
use mathlib.Core.Path.{◌≡◌, refl, sym, ap, ◌∙◌, subst}
use mathlib.Core.Bool.{false}
use mathlib.Core.Logic.{inl, inr}
use mathlib.Core.Option.{some, none}
use mathlib.Core.List.{[], ◌∷◌}
use native.Mathlib.Omega.{arith}

module _ {ℓ} {V : Type ℓ} where
  -- A removal from a map in which no key stands twice gives such a map.
  pub remove-IsDistinct : (k : Key) (m : HashMap V) → IsDistinct m → IsDistinct (remove k m)
  unfolding remove
  remove-IsDistinct k [] h = tt
  remove-IsDistinct k ((j, w) ∷ m) (fresh, rest) = elim (Bool-cases (key_eq j k)) [
    | inl same ↦ rw same (remove-IsDistinct k m rest)
    | inr other ↦ rw other (get-remove k j m ∙ ground (arith, fresh), remove-IsDistinct k m rest)
  ]

  pub get-eq-none :
      (k j : Key) (v : V) (m : HashMap V)
      → get k ((j, v) ∷ m) ≡ none
      → (key_eq j k ≡ false) × (get k m ≡ none)
  unfolding get
  get-eq-none k j v m h = elim (Bool-cases (key_eq j k)) [
    | inl e ↦ cc (rw e at h)
    | inr e ↦ (e, rw e at h)
  ]

  module _ {κ} (P : Key × V → Type κ) where
    pub insert-All : (k : Key) (v : V) (m : HashMap V) → P (k, v) → All P m → All P (insert k v m)
    unfolding insert
    insert-All k v [] h hs = (h, tt)
    insert-All k v ((j, w) ∷ m) h (hj, hs) = elim (Bool-cases (key_eq j k)) [
      | inl same ↦ rw same (h, hs)
      | inr other ↦ rw other (hj, insert-All k v m h hs)
    ]

    pub get-All : (k : Key) (v : V) (m : HashMap V) → All P m → get k m ≡ some v → P (k, v)
    unfolding get
    get-All k v [] hs at_k = cc
    get-All k v ((j, w) ∷ m) (h, hs) at_k = elim (Bool-cases (key_eq j k)) [
      | inl same ↦
          let here : some w ≡ some v = rw same at at_k in
          let value : w ≡ v = cc in
          subst (λ t. P (t, v)) (key_eq→eq j k same) (subst (λ t. P (j, t)) value h)
      | inr other ↦ get-All k v m hs (rw other at at_k)
    ]

    -- Where no key stands twice, the lookups reach every entry.
    pub All-get :
        (m : HashMap V) → IsDistinct m → ((k : Key) (v : V) → get k m ≡ some v → P (k, v)) → All P m
    unfolding get
    All-get [] distinct h = tt
    All-get ((j, w) ∷ m) (fresh, distinct) h = (
      h j w (rw (key_eq_refl j)),
      All-get m distinct λ k v at_k. h k v (elim (Bool-cases (key_eq j k)) [
        | inl same ↦ cc (at_k, fresh, ap (λ t. get t m) (key_eq→eq j k same))
        | inr other ↦ rw other at_k
      ]),
    )

  pub eq-nil : (m : HashMap V) → ((k : Key) → get k m ≡ none) → m ≡ []
  unfolding get
  eq-nil [] h = refl
  eq-nil ((j, w) ∷ m) h = cc (h j, key_eq_refl j)

  -- A map in which no key stands twice, and which has the lookups of a map with one entry, is that map.
  pub eq-singleton :
      (k : Key) (v : V) (m : HashMap V)
      → IsDistinct m
      → ((j : Key) → get j m ≡ get j ((k, v) ∷ []))
      → m ≡ (k, v) ∷ []
  unfolding get
  eq-singleton k v [] distinct h = cc (h k, key_eq_refl k)
  eq-singleton k v ((j, w) ∷ m) (fresh, distinct) h = elim (Bool-cases (key_eq k j)) [
    | inl same ↦
        let here : (if key_eq j j then some w else get j m) ≡ some v = h j ∙ rw same in
        let value : w ≡ v = cc (here, key_eq_refl j) in
        rw (
          value,
          sym (key_eq→eq k j same),
          eq-nil m λ i. elim (Bool-cases (key_eq k i)) [
            | inl at_k ↦ cc (fresh, key_eq→eq k j same, key_eq→eq k i at_k)
            | inr off ↦
                let behind : (if key_eq j i then some w else get i m)
                    ≡ (if key_eq k i then some v else none) =
                  h i in
                rw (sym (key_eq_congr k j i same) ∙ off, off) at behind
          ],
        )
    | inr other ↦ cc (h j, key_eq_refl j, other)
  ]
