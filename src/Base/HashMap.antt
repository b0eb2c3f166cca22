-- ===== src/Base/HashMap.antt =====
-- `HashMap<Key, V>` as an association list that holds a key at most once. The standard library
-- does not specify the order of iteration; code that depends on it takes the order as an argument.
pub mod Laws
pub mod Entries
pub mod Weights
use peach_db.Base.Keys.{bytes_eq, bytes_eq→eq, bytes_eq_refl}
use peach_db.Base.Tests.{if◌then◌else◌}
use peach_db.Base.Lists.{length}
use peach_db.Dtypes.Key.{Key}
use Prim.Native.Nat.{ℕ}
use mathlib.Core.Path.{◌≡◌, refl, ap}
use mathlib.Core.Bool.{Bool, true, false}
use mathlib.Core.Option.{Option, none, some}
use mathlib.Core.List.{List, [], ◌∷◌, map}
use native.Mathlib.Omega.{arith}

abbrev pub key_eq : Key → Key → Bool
key_eq a b = bytes_eq a.bytes b.bytes

pub key_eq→eq : (a b : Key) → key_eq a b ≡ true → a ≡ b
key_eq→eq a b h = ap (λ bs. record { bytes = bs }) (bytes_eq→eq a.bytes b.bytes h)

pub key_eq_refl : (a : Key) → key_eq a a ≡ true
key_eq_refl a = bytes_eq_refl a.bytes

abbrev pub HashMap {ℓ} : Type ℓ → Type ℓ
HashMap V = List (Key × V)

module _ {ℓ} {V : Type ℓ} where
  unfoldable pub get : Key → HashMap V → Option V
  get k [] = none
  get k ((j, v) ∷ m) = if key_eq j k then some v else get k m

  unfoldable pub insert : Key → V → HashMap V → HashMap V
  insert k v [] = (k, v) ∷ []
  insert k v ((j, w) ∷ m) = if key_eq j k then (k, v) ∷ m else (j, w) ∷ insert k v m

  unfoldable pub remove : Key → HashMap V → HashMap V
  remove k [] = []
  remove k ((j, w) ∷ m) = let rest = remove k m in if key_eq j k then rest else (j, w) ∷ rest

  abbrev pub len : HashMap V → ℕ
  len m = length m

  abbrev pub keys : HashMap V → List Key
  keys m = map (λ (e : Key × V). e.0) m

  -- No key stands twice.
  abbrev pub IsDistinct : HashMap V → Type ℓ
  IsDistinct [] = Unit {ℓ}
  IsDistinct ((k, v) ∷ m) = (get k m ≡ none) × IsDistinct m
