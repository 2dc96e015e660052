-- ===== src/Cache/KeyValue/Lookup.antt =====
-- GetKeyValuePairs of key_value_cache.cc against the entries.
use fledge_key_value_service.Base.{
  String, ◌≡◌, refl, inl, inr, Option, none, some, List, [], ◌∷◌, arith, if◌then◌else◌, ◌==◌,
  eq_iff, Option-cases,
}
use fledge_key_value_service.Base.Maps.{Map, find, contains, find-insert_or_assign}
use fledge_key_value_service.Cache.State.{CacheValue, KeyValueCache}
use fledge_key_value_service.Cache.KeyValue.{add_pair, collect_pairs, get_key_value_pairs}
use fledge_key_value_service.Cache.KeyValue.Entries.{entry}

-- The value that a reader is given: none for a missing key and for a deleted one.
abbrev pub value_of : Option CacheValue → Option String
value_of none = none
value_of (some e) = e.value

abbrev pub visible : KeyValueCache → String → Option String
visible c k = value_of (entry c k)

abbrev or_else {ℓ} : {A : Type ℓ} → Option A → Option A → Option A
or_else none o = o
or_else (some a) o = some a

find-add_pair :
    (o : Option CacheValue) (k j : String) (acc : Map String)
    → find j (add_pair k o acc) ≡ (if k == j then or_else (value_of o) (find j acc) else find j acc)
unfolding add_pair
find-add_pair none k j acc = ground arith
find-add_pair (some x) k j acc = elim (Option-cases x.value) [
  | inl n ↦ ground (arith, eq_iff k j)
  | inr (v, n) ↦ ground (arith, eq_iff k j, find-insert_or_assign k j v acc)
]

find-collect_pairs :
    (m : Map CacheValue) (keys : List String) (j : String) (acc : Map String)
    → find j (collect_pairs m keys acc)
      ≡ (if contains j keys then or_else (value_of (find j m)) (find j acc) else find j acc)
unfolding collect_pairs contains
find-collect_pairs m [] j acc = refl
find-collect_pairs m (k ∷ ks) j acc = ground (
  arith,
  eq_iff k j,
  find-collect_pairs m ks j (add_pair k (find k m) acc),
  find-add_pair (find k m) k j acc,
)

-- GetKeyValuePairs gives each requested key its visible value, and no other key.
pub get_key_value_pairs_lem :
    (c : KeyValueCache) (keys : List String) (j : String)
    → find j (get_key_value_pairs c keys) ≡ (if contains j keys then visible c j else none)
unfolding get_key_value_pairs find
get_key_value_pairs_lem c keys j = ground (arith, find-collect_pairs c.map keys j [])
