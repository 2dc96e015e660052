-- ===== src/Lookup/Local/Values.antt =====
-- Lookups of values and of value sets in local_lookup.cc against the cache.
use fledge_key_value_service.Base.{
  String, ◌≡◌, refl, false, ◌&&◌, Option, none, some, List, [], ◌∷◌, ◌++◌, arith, if◌then◌else◌,
  ◌==◌, eq_iff,
}
use fledge_key_value_service.Base.Maps.{
  IsDistinct, IsDistinct-insert_or_assign, Map, find, contains, insert_or_assign,
  find-insert_or_assign,
}
use fledge_key_value_service.Cache.State.{KeyValueCache}
use fledge_key_value_service.Cache.KeyValue.{get_key_value_pairs}
use fledge_key_value_service.Cache.KeyValue.Lookup.{visible, get_key_value_pairs_lem}
use fledge_key_value_service.Cache.Sets.{
  GetKeyValueSetResult, get_value_set, get_key_value_set, is_empty,
}
use fledge_key_value_service.Cache.Sets.Members.{is_member, get_key_value_set_lem}
use fledge_key_value_service.Cache.Sets.States.{IsValid}
use fledge_key_value_service.Lookup.Types.{value, InternalLookupResponse}
use fledge_key_value_service.Lookup.Local.{
  move_out, single_value, fill_values, process_keys, single_set, fill_sets, process_keyset_keys,
}

-- No key is listed twice.
abbrev pub AreUnique : List String → Type 0
AreUnique [] = Unit
AreUnique (k ∷ ks) = (contains k ks ≡ false) × AreUnique ks

module _ (moved : String → String) where
  find-move_out :
      (k j : String) (o : Option String) (m : Map String)
      → (k == j) ≡ false
      → find j (move_out moved k o m) ≡ find j m
  unfolding move_out
  find-move_out k j none m h = refl
  find-move_out k j (some v) m h = ground (arith, find-insert_or_assign k j (moved v) m)

  find-fill_values_last :
      (keys : List String) (k : String) (m : Map String) (r : InternalLookupResponse)
      → contains k keys ≡ false
      → find k (fill_values moved (keys ++ k ∷ []) m r) ≡ some (single_value (find k m))
  unfolding fill_values contains
  find-fill_values_last [] k m r h =
      ground (arith, eq_iff k k, find-insert_or_assign k k (single_value (find k m)) r)
  find-fill_values_last (x ∷ xs) k m r h = ground (
    arith,
    find-fill_values_last xs k (move_out moved x (find x m) m)
        (insert_or_assign x (single_value (find x m)) r),
    find-move_out x k (find x m) m,
  )

  -- A key that is listed first and last, and not between, is answered with the string that the move
  -- of its value for the first occurrence has left behind, not with its value.
  pub process_keys_repeated :
      (c : KeyValueCache) (k v : String) (keys : List String)
      → visible c k ≡ some v
      → contains k keys ≡ false
      → find k (process_keys moved c (k ∷ (keys ++ k ∷ []))) ≡ some (value (moved v))
  unfolding process_keys is_empty fill_values move_out contains
  process_keys_repeated c k v keys seen once =
      let full = k ∷ (keys ++ k ∷ []) in
      let pairs = get_key_value_pairs c full in
      ground (
        arith,
        eq_iff k k,
        get_key_value_pairs_lem c full k,
        find-fill_values_last keys k (move_out moved k (find k pairs) pairs)
            (insert_or_assign k (single_value (find k pairs)) []),
        find-insert_or_assign k k (moved v) pairs,
      )

find-fill_sets :
    (keys : List String) (j : String) (s : GetKeyValueSetResult) (r : InternalLookupResponse)
    → find j (fill_sets keys s r)
      ≡ (if contains j keys then some (single_set (get_value_set s j)) else find j r)
unfolding fill_sets contains
find-fill_sets [] j s r = refl
find-fill_sets (k ∷ ks) j s r = ground (
  arith,
  eq_iff k j,
  find-fill_sets ks j s (insert_or_assign k (single_set (get_value_set s k)) r),
  find-insert_or_assign k j (single_set (get_value_set s k)) r,
)

pub find-process_keyset_keys :
    (c : KeyValueCache) (keys : List String) (k : String)
    → find k (process_keyset_keys c keys) ≡ (
        if contains k keys
        then some (single_set (get_value_set (get_key_value_set c keys) k))
        else none)
unfolding process_keyset_keys is_empty find contains
find-process_keyset_keys c [] k = refl
find-process_keyset_keys c (x ∷ xs) k = find-fill_sets (x ∷ xs) k (get_key_value_set c (x ∷ xs)) []

IsDistinct-fill_sets :
    (keys : List String) (s : GetKeyValueSetResult) (r : InternalLookupResponse)
    → IsDistinct r
    → IsDistinct (fill_sets keys s r)
unfolding fill_sets
IsDistinct-fill_sets [] s r d = d
IsDistinct-fill_sets (k ∷ ks) s r d =
    IsDistinct-fill_sets ks s (insert_or_assign k (single_set (get_value_set s k)) r)
      (IsDistinct-insert_or_assign k (single_set (get_value_set s k)) r d)

pub IsDistinct-process_keyset_keys :
    (c : KeyValueCache) (keys : List String) → IsDistinct (process_keyset_keys c keys)
unfolding process_keyset_keys is_empty
IsDistinct-process_keyset_keys c [] = tt
IsDistinct-process_keyset_keys c (x ∷ xs) =
    IsDistinct-fill_sets (x ∷ xs) (get_key_value_set c (x ∷ xs)) [] tt

-- For every set of keys and a valid cache, the response has for each requested key exactly the values
-- that the cache shows in its set, or the status NOT_FOUND where there are none, and nothing for any
-- other key.
pub process_keyset_keys_lem :
    (c : KeyValueCache) (keys : List String) (k : String)
    → IsValid c
    → (s : List String) × (find k (process_keyset_keys c keys)
        ≡ (if contains k keys then some (single_set s) else none))
      × ((v : String) → contains v s ≡ (contains k keys && is_member c k v))
process_keyset_keys_lem c keys k h = (
  get_value_set (get_key_value_set c keys) k,
  find-process_keyset_keys c keys k,
  λ v. get_key_value_set_lem c keys k v h.distinct,
)
