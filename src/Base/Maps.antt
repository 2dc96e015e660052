-- ===== src/Base/Maps.antt =====
-- Hash maps and hash sets with string keys (absl::flat_hash_map, absl::flat_hash_set), as
-- association lists. Nothing here depends on the order of the entries: all laws are about `find`
-- and `contains`.
use Prim.Native.String.{String}
use mathlib.Core.Path.{◌≡◌, refl}
use mathlib.Core.HLevel.{hedberg}
use mathlib.Core.Logic.{inl, inr}
use mathlib.Core.Bool.{Bool, true, false, ◌||◌}
use mathlib.Core.List.{List, [], ◌∷◌}
use mathlib.Core.Option.{Option, none, some}
use native.Mathlib.Omega.{arith}
use text.Mathlib.Text.{◌==◌}
use text.Mathlib.TextEquality.{eq_iff}
use fledge_key_value_service.Base.Tests.{if◌then◌else◌, Bool-cases}

String-discrete : Discrete String
String-discrete a b = elim (Bool-cases (a == b)) [
  | inl e ↦ yes ((eq_iff a b).0 e)
  | inr e ↦ no (λ p. ground (arith, eq_iff a b))
]

pub String-set : IsSet String
String-set = hedberg String-discrete

abbrev pub Map {ℓ} : Type ℓ → Type ℓ
Map V = List (String × V)

module _ {ℓ} {V : Type ℓ} where
  -- map.find(key); `none` is map.end().
  unfoldable pub find : String → Map V → Option V
  find k [] = none
  find k ((j, v) ∷ m) = if j == k then some v else find k m

  -- map.insert_or_assign(key, value), and map[key] = value.
  unfoldable pub insert_or_assign : String → V → Map V → Map V
  insert_or_assign k v [] = (k, v) ∷ []
  insert_or_assign k v ((j, w) ∷ m) = if j == k then (k, v) ∷ m else (j, w) ∷ insert_or_assign k v m

  -- map.emplace(key, value): an entry that is there stays.
  unfoldable pub emplace : String → V → Map V → Map V
  emplace k v [] = (k, v) ∷ []
  emplace k v ((j, w) ∷ m) = (j, w) ∷ (if j == k then m else emplace k v m)

  -- map.erase(key)
  unfoldable pub erase : String → Map V → Map V
  erase k [] = []
  erase k ((j, v) ∷ m) = let rest = erase k m in if j == k then rest else (j, v) ∷ rest

  pub find-insert_or_assign :
      (k j : String) (v : V) (m : Map V)
      → find j (insert_or_assign k v m) ≡ (if k == j then some v else find j m)
  unfolding find insert_or_assign
  find-insert_or_assign k j v [] = refl
  find-insert_or_assign k j v ((i, w) ∷ m) =
      ground (arith, eq_iff k j, eq_iff i k, eq_iff i j, find-insert_or_assign k j v m)

  pub find-emplace :
      (k j : String) (v : V) (m : Map V)
      → find j (emplace k v m)
        ≡ (elim (find j m) [ some w ↦ some w | none ↦ if k == j then some v else none ])
  unfolding find emplace
  find-emplace k j v [] = refl
  find-emplace k j v ((i, w) ∷ m) =
      ground (arith, eq_iff k j, eq_iff i k, eq_iff i j, find-emplace k j v m)

  pub find-erase :
      (k j : String) (m : Map V) → find j (erase k m) ≡ (if k == j then none else find j m)
  unfolding find erase
  find-erase k j [] = ground arith
  find-erase k j ((i, v) ∷ m) = ground (arith, find-erase k j m, eq_iff i k, eq_iff i j, eq_iff k j)

module _ {ℓ} {V : Type ℓ} where
  -- No key has two entries, so that a loop over the entries is a loop over the map.
  abbrev pub IsDistinct : Map V → Type ℓ
  IsDistinct [] = Unit
  IsDistinct ((k, v) ∷ m) = (find k m ≡ none) × IsDistinct m

  pub IsDistinct-insert_or_assign :
      (k : String) (v : V) (m : Map V) → IsDistinct m → IsDistinct (insert_or_assign k v m)
  unfolding insert_or_assign find
  IsDistinct-insert_or_assign k v [] d = (refl, tt)
  IsDistinct-insert_or_assign k v ((j, w) ∷ m) d = ground (
    arith,
    eq_iff j k,
    eq_iff k j,
    find-insert_or_assign k j v m,
    IsDistinct-insert_or_assign k v m,
  )

  pub IsDistinct-emplace :
      (k : String) (v : V) (m : Map V) → IsDistinct m → IsDistinct (emplace k v m)
  unfolding emplace find
  IsDistinct-emplace k v [] d = (refl, tt)
  IsDistinct-emplace k v ((j, w) ∷ m) d =
      ground (arith, eq_iff j k, eq_iff k j, find-emplace k j v m, IsDistinct-emplace k v m)

  pub IsDistinct-erase : (k : String) (m : Map V) → IsDistinct m → IsDistinct (erase k m)
  unfolding erase
  IsDistinct-erase k [] d = tt
  IsDistinct-erase k ((j, w) ∷ m) d =
      ground (arith, eq_iff j k, eq_iff k j, find-erase k j m, IsDistinct-erase k m)

-- set.contains(key)
unfoldable pub contains : String → List String → Bool
contains k [] = false
contains k (x ∷ xs) = x == k || contains k xs

-- set.emplace(key), set.insert(key)
unfoldable pub set_insert : String → List String → List String
set_insert k [] = k ∷ []
set_insert k (x ∷ xs) = x ∷ (if x == k then xs else set_insert k xs)

-- set.erase(key)
unfoldable pub set_erase : String → List String → List String
set_erase k [] = []
set_erase k (x ∷ xs) = let rest = set_erase k xs in if x == k then rest else x ∷ rest

pub contains-set_insert :
    (k j : String) (xs : List String)
    → contains j (set_insert k xs) ≡ (if k == j then true else contains j xs)
unfolding contains set_insert
contains-set_insert k j [] = ground arith
contains-set_insert k j (x ∷ xs) =
    ground (arith, eq_iff k j, eq_iff x k, eq_iff x j, contains-set_insert k j xs)

pub contains-set_erase :
    (k j : String) (xs : List String)
    → contains j (set_erase k xs) ≡ (if k == j then false else contains j xs)
unfolding contains set_erase
contains-set_erase k j [] = ground arith
contains-set_erase k j (x ∷ xs) =
    ground (arith, eq_iff k j, eq_iff x k, eq_iff x j, contains-set_erase k j xs)

pub ruleset map_laws = (find-insert_or_assign, find-emplace, find-erase)
