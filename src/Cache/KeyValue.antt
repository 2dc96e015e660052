-- ===== src/Cache/KeyValue.antt =====
-- The operations of KeyValueCache on single values (key_value_cache.cc). A mutex is held through
-- each of them, so each is one step on the state. Metrics and logging are left out.
pub mod Entries
pub mod Lookup
pub mod Nodes
use fledge_key_value_service.Base.{
  ℕ, max, String, Bool, true, false, ◌&&◌, Option, none, some, List, [], ◌∷◌, ltb, leb, eqb,
  if◌then◌else◌, ◌==◌,
}
use fledge_key_value_service.Base.Maps.{Map, find, insert_or_assign, erase}
use fledge_key_value_service.Cache.State.{CacheValue, KeyValueCache}

-- std::multimap::emplace: behind the nodes with the same time.
unfoldable pub add_node : ℕ → String → List (ℕ × String) → List (ℕ × String)
add_node t k [] = (t, k) ∷ []
add_node t k ((s, j) ∷ l) =
    let rest = add_node t k l in if ltb t s then (t, k) ∷ (s, j) ∷ l else (s, j) ∷ rest

-- `find(t)` gives the first node with the time; it is erased if it is the key's.
unfoldable pub erase_node : ℕ → String → List (ℕ × String) → List (ℕ × String)
erase_node t k [] = []
erase_node t k ((s, j) ∷ l) =
    let rest = erase_node t k l in
    if eqb s t then (if j == k then l else (s, j) ∷ l) else (s, j) ∷ rest

abbrev pub is_null {ℓ} : {A : Type ℓ} → Option A → Bool
is_null none = true
is_null (some _) = false

-- One round of the loop of GetKeyValuePairs: a missing or deleted key is skipped.
unfoldable pub add_pair : String → Option CacheValue → Map String → Map String
add_pair key none kv_pairs = kv_pairs
add_pair key (some e) kv_pairs = elim e.value [
  | none ↦ kv_pairs
  | some v ↦ insert_or_assign key v kv_pairs
]

unfoldable pub collect_pairs : Map CacheValue → List String → Map String → Map String
collect_pairs m [] kv_pairs = kv_pairs
collect_pairs m (key ∷ rest) kv_pairs = collect_pairs m rest (add_pair key (find key m) kv_pairs)

unfoldable pub get_key_value_pairs : KeyValueCache → List String → Map String
get_key_value_pairs c key_list = collect_pairs c.map key_list []

-- The node of a deleted key that is written again.
unfoldable pub drop_deleted_node : String → CacheValue → List (ℕ × String) → List (ℕ × String)
drop_deleted_node key e nodes =
    if is_null e.value then erase_node e.last_logical_commit_time key nodes else nodes

unfoldable pub assign : KeyValueCache → String → Option String → ℕ → Map CacheValue
assign c key value time =
    insert_or_assign key (record { value = value; last_logical_commit_time = time }) c.map

unfoldable pub update_key_value : KeyValueCache → String → String → ℕ → KeyValueCache
unfolding drop_deleted_node assign
update_key_value c key value time =
    if leb time c.max_cleanup_logical_commit_time then c else (elim (find key c.map) [
      | none ↦ record c { map = assign c key (some value) time }
      | some e ↦ if leb time e.last_logical_commit_time then c else record c {
        map = assign c key (some value) time;
        deleted_nodes = drop_deleted_node key e c.deleted_nodes;
      }
    ])

-- The key's entry is missing, or older than `time`.
unfoldable pub is_older : Option CacheValue → ℕ → Bool
is_older none time = true
is_older (some e) time = ltb e.last_logical_commit_time time

unfoldable pub delete_key : KeyValueCache → String → ℕ → KeyValueCache
unfolding is_older assign
delete_key c key time =
    if leb time c.max_cleanup_logical_commit_time
    then c
    else if is_older (find key c.map) time
    then record c {
      map = assign c key none time;
      deleted_nodes = add_node time key c.deleted_nodes;
    }
    else c

-- The body of the loop of CleanUpKeyValueMap at a node for `key`.
unfoldable pub erase_deleted : ℕ → String → Map CacheValue → Map CacheValue
erase_deleted time key m = elim (find key m) [
  | none ↦ m
  | some e ↦ if is_null e.value && leb e.last_logical_commit_time time then erase key m else m
]

-- The loop itself: the entries that stay, and the nodes from the iterator on.
unfoldable pub clean_up_nodes :
    ℕ → List (ℕ × String) → Map CacheValue → Map CacheValue × List (ℕ × String)
unfolding erase_deleted
clean_up_nodes time [] m = (m, [])
clean_up_nodes time ((t, key) ∷ l) m =
    let rest = clean_up_nodes time l (erase_deleted time key m) in
    if ltb time t then (m, (t, key) ∷ l) else rest

unfoldable pub clean_up_key_value_map : KeyValueCache → ℕ → KeyValueCache
unfolding clean_up_nodes
clean_up_key_value_map c time =
    let (m, nodes) = clean_up_nodes time c.deleted_nodes c.map in
    record c {
      map = m;
      deleted_nodes = nodes;
      max_cleanup_logical_commit_time = max c.max_cleanup_logical_commit_time time;
    }
