-- ===== src/Cache/Sets.antt =====
-- The operations of KeyValueCache on value sets (key_value_cache.cc), and the result object of
-- get_key_value_set_result_impl.cc. Each operation is one step: no other call comes between the
-- locking of the map and the locking of the key.
pub mod Values
pub mod Members
pub mod States
pub mod Valid
use fledge_key_value_service.Base.{
  ℕ, max, String, Bool, true, false, ◌&&◌, Option, none, some, List, [], ◌∷◌, ltb, leb, eqb,
  if◌then◌else◌,
}
use fledge_key_value_service.Base.Maps.{Map, find, insert_or_assign, emplace, erase, set_insert}
use fledge_key_value_service.Cache.State.{SetValueMeta, default_meta, KeyValueCache}

-- The values that are not deleted.
unfoldable pub live_values : Map SetValueMeta → List String
live_values [] = []
live_values ((v, m) ∷ rest) =
    let others = live_values rest in if m.is_deleted then others else set_insert v others

-- The data of GetKeyValueSetResultImpl; its read locks are left out.
abbrev pub GetKeyValueSetResult : Type 0
GetKeyValueSetResult = Map (List String)

unfoldable pub add_key_value_set :
    String → List String → GetKeyValueSetResult → GetKeyValueSetResult
add_key_value_set key value_set result = emplace key value_set result

-- A key that is missing has the empty set.
unfoldable pub get_value_set : GetKeyValueSetResult → String → List String
get_value_set result key = elim (find key result) [ none ↦ [] | some s ↦ s ]

-- One round of the loop of GetKeyValueSet, with what is found for the key.
unfoldable pub add_found :
    String → Option (Map SetValueMeta) → GetKeyValueSetResult → GetKeyValueSetResult
unfolding live_values add_key_value_set
add_found key none result = result
add_found key (some values) result = add_key_value_set key (live_values values) result

unfoldable pub collect_sets :
    Map (Map SetValueMeta) → List String → GetKeyValueSetResult → GetKeyValueSetResult
collect_sets m [] result = result
collect_sets m (key ∷ rest) result = collect_sets m rest (add_found key (find key m) result)

unfoldable pub get_key_value_set : KeyValueCache → List String → GetKeyValueSetResult
get_key_value_set c key_set = collect_sets c.key_to_value_set_map key_set []

-- The value map of a new key: `emplace` keeps the first of two equal values.
unfoldable pub new_values : ℕ → Bool → List String → Map SetValueMeta → Map SetValueMeta
new_values time deleted [] m = m
new_values time deleted (v ∷ vs) m =
    new_values time deleted vs
      (emplace v (record { last_logical_commit_time = time; is_deleted = deleted }) m)

-- (*existing_value_set)[value]
unfoldable pub value_state : String → Map SetValueMeta → SetValueMeta
value_state v m = elim (find v m) [ none ↦ default_meta | some s ↦ s ]

-- One round of the loops over an existing value set. Where the state is not older than `time`,
-- only operator[] has its effect: a missing value is there with the default state.
unfoldable pub set_value : ℕ → Bool → String → Map SetValueMeta → Map SetValueMeta
unfolding value_state
set_value time deleted v m =
    if leb time (value_state v m).last_logical_commit_time
    then emplace v default_meta m
    else insert_or_assign v (record { last_logical_commit_time = time; is_deleted = deleted }) m

unfoldable pub set_values : ℕ → Bool → List String → Map SetValueMeta → Map SetValueMeta
unfolding set_value
set_values time deleted [] m = m
set_values time deleted (v ∷ vs) m = set_values time deleted vs (set_value time deleted v m)

unfoldable pub is_empty {ℓ} : {A : Type ℓ} → List A → Bool
is_empty [] = true
is_empty (_ ∷ _) = false

-- The value map that a call gives a key: a new one, or the existing one changed in place.
unfoldable pub write_sets :
    ℕ → Bool → String → List String → Map (Map SetValueMeta) → Map (Map SetValueMeta)
unfolding new_values set_values
write_sets time deleted key vs m = elim (find key m) [
  | none ↦ emplace key (new_values time deleted vs []) m
  | some values ↦ insert_or_assign key (set_values time deleted vs values) m
]

unfoldable pub update_key_value_set : KeyValueCache → String → List String → ℕ → KeyValueCache
unfolding write_sets is_empty
update_key_value_set c key input_value_set time =
    if leb time c.max_cleanup_logical_commit_time_for_set_cache
    then c
    else if is_empty input_value_set
    then c
    else record c {
      key_to_value_set_map = write_sets time false key input_value_set c.key_to_value_set_map;
    }

-- `values_to_delete`: the values that the loop of DeleteValuesInSet marked.
unfoldable pub marked_values : ℕ → List String → Map SetValueMeta → List String
unfolding set_value
marked_values time [] m = []
marked_values time (v ∷ vs) m =
    let rest = marked_values time vs (set_value time true v m) in
    if leb time (value_state v m).last_logical_commit_time then rest else v ∷ rest

-- deleted_set_nodes_[time][key].emplace(value): the nodes are sorted by time.
unfoldable pub add_value : String → String → Map (List String) → Map (List String)
add_value key v m =
    insert_or_assign key (set_insert v (elim (find key m) [ none ↦ [] | some s ↦ s ])) m

unfoldable pub add_set_node :
    ℕ → String → String → List (ℕ × Map (List String)) → List (ℕ × Map (List String))
unfolding add_value
add_set_node time key v [] = (time, add_value key v []) ∷ []
add_set_node time key v ((s, m) ∷ l) =
    let rest = add_set_node time key v l in
    if ltb time s
    then (time, add_value key v []) ∷ (s, m) ∷ l
    else if eqb time s
    then (s, add_value key v m) ∷ l
    else (s, m) ∷ rest

unfoldable pub add_set_nodes :
    ℕ → String → List String → List (ℕ × Map (List String)) → List (ℕ × Map (List String))
unfolding add_set_node
add_set_nodes time key [] l = l
add_set_nodes time key (v ∷ vs) l = add_set_nodes time key vs (add_set_node time key v l)

-- The values that get a node: all of them for a new key, the marked ones for an existing key.
unfoldable pub values_to_delete : ℕ → List String → Option (Map SetValueMeta) → List String
unfolding marked_values
values_to_delete time vs none = vs
values_to_delete time vs (some values) = marked_values time vs values

unfoldable pub delete_values_in_set : KeyValueCache → String → List String → ℕ → KeyValueCache
unfolding write_sets values_to_delete is_empty add_set_nodes
delete_values_in_set c key value_set time =
    if leb time c.max_cleanup_logical_commit_time_for_set_cache
    then c
    else if is_empty value_set
    then c
    else record c {
      key_to_value_set_map = write_sets time true key value_set c.key_to_value_set_map;
      deleted_set_nodes =
          add_set_nodes time key (values_to_delete time value_set (find key c.key_to_value_set_map))
            c.deleted_set_nodes;
    }

-- The inner loop of CleanUpKeyValueSetMap, over the values of one node and key.
unfoldable pub erase_value : ℕ → String → Map SetValueMeta → Map SetValueMeta
erase_value time v m = elim (find v m) [
  | none ↦ m
  | some s ↦ if s.is_deleted && leb s.last_logical_commit_time time then erase v m else m
]

unfoldable pub erase_values : ℕ → List String → Map SetValueMeta → Map SetValueMeta
unfolding erase_value
erase_values time [] m = m
erase_values time (v ∷ vs) m = erase_values time vs (erase_value time v m)

-- The body of the loop over the keys of one node: a key whose value set is empty is erased.
unfoldable pub clean_up_set_key :
    ℕ → String → List String → Map (Map SetValueMeta) → Map (Map SetValueMeta)
unfolding erase_values is_empty
clean_up_set_key time key values m = elim (find key m) [
  | none ↦ m
  | some s ↦
      let left = erase_values time values s in
      if is_empty left then erase key m else insert_or_assign key left m
]

unfoldable pub clean_up_set_keys :
    ℕ → Map (List String) → Map (Map SetValueMeta) → Map (Map SetValueMeta)
unfolding clean_up_set_key
clean_up_set_keys time [] m = m
clean_up_set_keys time ((key, values) ∷ rest) m =
    clean_up_set_keys time rest (clean_up_set_key time key values m)

unfoldable pub clean_up_set_nodes :
    ℕ
    → List (ℕ × Map (List String))
    → Map (Map SetValueMeta)
    → Map (Map SetValueMeta) × List (ℕ × Map (List String))
unfolding clean_up_set_keys
clean_up_set_nodes time [] m = (m, [])
clean_up_set_nodes time ((t, keys) ∷ l) m =
    let rest = clean_up_set_nodes time l (clean_up_set_keys time keys m) in
    if ltb time t then (m, (t, keys) ∷ l) else rest

unfoldable pub clean_up_key_value_set_map : KeyValueCache → ℕ → KeyValueCache
unfolding clean_up_set_nodes
clean_up_key_value_set_map c time =
    let (m, nodes) = clean_up_set_nodes time c.deleted_set_nodes c.key_to_value_set_map in
    record c {
      key_to_value_set_map = m;
      deleted_set_nodes = nodes;
      max_cleanup_logical_commit_time_for_set_cache =
          max c.max_cleanup_logical_commit_time_for_set_cache time;
    }
