-- ===== src/Cache/Sets/Members.antt =====
-- GetKeyValueSet of key_value_cache.cc and GetKeyValueSetResultImpl against the states of the values.
use fledge_key_value_service.Base.{
  ℕ, String, ◌≡◌, refl, Bool, false, not, ◌&&◌, Option, none, some, List, [], ◌∷◌, arith,
  if◌then◌else◌, ◌==◌, eq_iff,
}
use fledge_key_value_service.Base.Maps.{
  Map, find, contains, find-emplace, contains-set_insert, IsDistinct, IsDistinct-insert_or_assign,
  IsDistinct-emplace, IsDistinct-erase,
}
use fledge_key_value_service.Cache.State.{SetValueMeta, KeyValueCache, default_meta}
use fledge_key_value_service.Cache.Sets.{
  new_values, set_value, set_values, erase_value, erase_values, live_values, add_key_value_set,
  get_value_set, collect_sets, add_found, get_key_value_set, GetKeyValueSetResult,
}
use fledge_key_value_service.Cache.Sets.Values.{stamp}

-- The value sets of a key, and the state of one value in it.
abbrev pub sets : KeyValueCache → String → Option (Map SetValueMeta)
sets c k = find k c.key_to_value_set_map

abbrev pub state_in : Option (Map SetValueMeta) → String → Option SetValueMeta
state_in none v = none
state_in (some m) v = find v m

abbrev pub is_live : Option SetValueMeta → Bool
is_live none = false
is_live (some s) = not s.is_deleted

-- A reader finds the value in the set of the key.
abbrev pub is_member : KeyValueCache → String → String → Bool
is_member c k v = is_live (state_in (sets c k) v)

pub contains-live_values :
    (m : Map SetValueMeta) (v : String)
    → IsDistinct m
    → contains v (live_values m) ≡ is_live (find v m)
unfolding live_values find contains
contains-live_values [] v d = refl
contains-live_values ((w, s) ∷ m) v d =
    ground (arith, eq_iff w v, contains-live_values m v, contains-set_insert w v (live_values m))

-- Every value map of the cache has its values once.
abbrev pub AreDistinct : Map (Map SetValueMeta) → Type 0
AreDistinct m = (k : String) (s : Map SetValueMeta) → find k m ≡ some s → IsDistinct s

abbrev members : Option (List String) → List String
members none = []
members (some s) = s

found : Option (Map SetValueMeta) → Option (List String)
found none = none
found (some s) = some (live_values s)

or_else {ℓ} : {A : Type ℓ} → Option A → Option A → Option A
or_else none o = o
or_else (some a) o = some a

find-add_found :
    (o : Option (Map SetValueMeta)) (k j : String) (r : GetKeyValueSetResult)
    → find j (add_found k o r) ≡ (if k == j then or_else (find j r) (found o) else find j r)
unfolding add_found add_key_value_set found or_else
find-add_found none k j r = ground arith
find-add_found (some s) k j r = ground (arith, eq_iff k j, find-emplace k j (live_values s) r)

or_else_idem {ℓ} : {A : Type ℓ} (a b : Option A) → or_else (or_else a b) b ≡ or_else a b
unfolding or_else
or_else_idem none none = refl
or_else_idem none (some b) = refl
or_else_idem (some a) b = refl

find-collect_sets :
    (m : Map (Map SetValueMeta)) (keys : List String) (j : String) (r : GetKeyValueSetResult)
    → find j (collect_sets m keys r)
      ≡ (if contains j keys then or_else (find j r) (found (find j m)) else find j r)
unfolding collect_sets contains
find-collect_sets m [] j r = refl
find-collect_sets m (k ∷ ks) j r = ground (
  arith,
  eq_iff k j,
  find-collect_sets m ks j (add_found k (find k m) r),
  find-add_found (find k m) k j r,
  or_else_idem (find j r) (found (find j m)),
)

contains-members :
    (o : Option (Map SetValueMeta)) (v : String)
    → ((s : Map SetValueMeta) → o ≡ some s → IsDistinct s)
    → contains v (members (found o)) ≡ is_live (state_in o v)
unfolding found contains
contains-members none v d = refl
contains-members (some s) v d = contains-live_values s v (d s refl)

-- The set that GetKeyValueSet gives for a requested key holds exactly the live values of the key,
-- and the set for any other key is empty.
pub get_key_value_set_lem :
    (c : KeyValueCache) (keys : List String) (k v : String)
    → AreDistinct c.key_to_value_set_map
    → contains v (get_value_set (get_key_value_set c keys) k) ≡ (contains k keys && is_member c k v)
unfolding get_key_value_set get_value_set contains find or_else
get_key_value_set_lem c keys k v d =
    ground (
      arith,
      find-collect_sets c.key_to_value_set_map keys k [],
      contains-members (sets c k) v (d k),
    )

module _ (t : ℕ) where
  pub IsDistinct-new_values :
      (d : Bool) (vs : List String) (m : Map SetValueMeta)
      → IsDistinct m
      → IsDistinct (new_values t d vs m)
  unfolding new_values
  IsDistinct-new_values d [] m h = h
  IsDistinct-new_values d (v ∷ vs) m h =
      IsDistinct-new_values d vs _ (IsDistinct-emplace v (stamp t d) m h)

  IsDistinct-set_value :
      (d : Bool) (v : String) (m : Map SetValueMeta) → IsDistinct m → IsDistinct (set_value t d v m)
  unfolding set_value
  IsDistinct-set_value d v m h =
      ground (
        arith,
        IsDistinct-emplace v default_meta m h,
        IsDistinct-insert_or_assign v (stamp t d) m h,
      )

  pub IsDistinct-set_values :
      (d : Bool) (vs : List String) (m : Map SetValueMeta)
      → IsDistinct m
      → IsDistinct (set_values t d vs m)
  unfolding set_values
  IsDistinct-set_values d [] m h = h
  IsDistinct-set_values d (v ∷ vs) m h = IsDistinct-set_values d vs _ (IsDistinct-set_value d v m h)

  IsDistinct-erase_value :
      (v : String) (m : Map SetValueMeta) → IsDistinct m → IsDistinct (erase_value t v m)
  unfolding erase_value
  IsDistinct-erase_value v m h = ground (arith, IsDistinct-erase v m h)

  pub IsDistinct-erase_values :
      (vs : List String) (m : Map SetValueMeta) → IsDistinct m → IsDistinct (erase_values t vs m)
  unfolding erase_values
  IsDistinct-erase_values [] m h = h
  IsDistinct-erase_values (v ∷ vs) m h = IsDistinct-erase_values vs _ (IsDistinct-erase_value v m h)
