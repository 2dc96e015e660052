-- ===== src/Lookup/Sharded.antt =====
-- components/internal_server/sharded_lookup.cc: lookups over all shards. Arguments stand for what the
-- file calls: the hash function of the PIR library, the serialisation of protobuf (whose messages stay
-- below 2^31 bytes, so that the sizes fit an int32_t), the shard manager and the remote clients. The
-- calls of the shards run at the same time and share nothing, so they are made in order here.
pub mod Buckets
pub mod Padding
pub mod Values
pub mod Unreachable
pub mod Sets
pub mod Locals
use fledge_key_value_service.Base.{
  ℕ, zero, suc, ◌-◌, max, String, Bool, true, false, Option, none, some, List, [], ◌∷◌, ◌++◌, map,
  eqb, if◌then◌else◌, ◌==◌,
}
use fledge_key_value_service.Base.Lists.{length, replicate}
use fledge_key_value_service.Base.Maps.{Map, find, insert_or_assign, set_insert}
use fledge_key_value_service.Cache.Sets.{is_empty}
use fledge_key_value_service.Query.Sets.{KvSetView}
use fledge_key_value_service.Query.Ast.{Node, keys}
use fledge_key_value_service.Query.Driver.{get_result}
use fledge_key_value_service.Lookup.Types.{
  StatusCode, invalid_argument, not_found, internal, StatusOr, ok, err, ◌>>=◌, SingleLookupResult,
  value, status, keyset_values, InternalLookupResponse, InternalLookupRequest, Lookup,
}
use fledge_key_value_service.Lookup.Local.{Parsed, filled, to_response}

-- RemoteLookupClient::GetValues, of a serialised request and its padding.
abbrev pub Client : Type 0
Client = List ℕ → ℕ → StatusOr InternalLookupResponse

-- `client` is ShardManager::Get during the lookup; `none` is the null pointer.
pub record ShardedLookup : Type 0 where
  pub local : Lookup
  pub num_shards : ℕ
  pub current_shard_num : ℕ
  pub hash_function : String → ℕ → ℕ
  pub serialize : InternalLookupRequest → List ℕ
  pub client : ℕ → Option Client

pub record ShardLookupInput : Type 0 where
  pub keys : List String
  pub serialized_request : List ℕ
  pub padding : ℕ

abbrev pub empty_input : ShardLookupInput
empty_input = record { keys = []; serialized_request = []; padding = 0 }

-- absl::flat_hash_set(keys.begin(), keys.end())
unfoldable pub to_set : List String → List String → List String
to_set [] s = s
to_set (k ∷ ks) s = to_set ks (set_insert k s)

-- lookup_inputs[shard_num].keys.emplace_back(key), with an index inside the vector.
unfoldable pub add_key : ℕ → String → List ShardLookupInput → List ShardLookupInput
add_key i key [] = []
add_key zero key (x ∷ xs) = record x { keys = x.keys ++ key ∷ [] } ∷ xs
add_key (suc i) key (x ∷ xs) = x ∷ add_key i key xs

unfoldable pub add_keys : (String → ℕ) → List String → List ShardLookupInput → List ShardLookupInput
unfolding add_key
add_keys hash [] inputs = inputs
add_keys hash (key ∷ rest) inputs = add_keys hash rest (add_key (hash key) key inputs)

unfoldable pub bucket_keys : ShardedLookup → List String → List ShardLookupInput
unfolding add_keys
bucket_keys s keys =
    add_keys (λ k. s.hash_function k s.num_shards) keys (replicate s.num_shards empty_input)

unfoldable pub serialize_sharded_requests :
    ShardedLookup → Bool → List ShardLookupInput → List ShardLookupInput
serialize_sharded_requests s lookup_sets = map λ (x : ShardLookupInput). record x {
  serialized_request = s.serialize (record { keys = x.keys; lookup_sets = lookup_sets });
}

unfoldable pub max_length : List ShardLookupInput → ℕ
max_length [] = 0
max_length (x ∷ xs) = max (length x.serialized_request) (max_length xs)

unfoldable pub compute_padding : List ShardLookupInput → List ShardLookupInput
unfolding max_length
compute_padding inputs =
    map
      (λ (x : ShardLookupInput). record x {
        padding = max_length inputs - length x.serialized_request;
      })
      inputs

unfoldable pub shard_keys : ShardedLookup → List String → Bool → List ShardLookupInput
unfolding bucket_keys serialize_sharded_requests compute_padding
shard_keys s keys lookup_sets =
    compute_padding (serialize_sharded_requests s lookup_sets (bucket_keys s keys))

-- The call of one shard; a missing client ends the whole lookup.
unfoldable pub start :
    ShardedLookup
    → (List String → StatusOr InternalLookupResponse)
    → ℕ
    → ShardLookupInput
    → StatusOr (StatusOr InternalLookupResponse)
start s get_local i x =
    if eqb i s.current_shard_num then ok (get_local x.keys) else (elim (s.client i) [
      | none ↦ err internal
      | some client ↦ ok (client x.serialized_request x.padding)
    ])

-- The loop of GetLookupFutures from shard `i` on.
unfoldable pub get_lookup_futures :
    ShardedLookup
    → (List String → StatusOr InternalLookupResponse)
    → ℕ
    → List ShardLookupInput
    → StatusOr (List (StatusOr InternalLookupResponse))
unfolding start
get_lookup_futures s get_local i [] = ok []
get_lookup_futures s get_local i (x ∷ xs) = do
  response ← start s get_local i x
  rest ← get_lookup_futures s get_local (suc i) xs
  ok (response ∷ rest)

abbrev pub or_not_found : Option SingleLookupResult → SingleLookupResult
or_not_found none = status not_found
or_not_found (some r) = r

-- The keys of a shard are distinct, so an entry that is moved out is not read again.
unfoldable pub update_response :
    List String → InternalLookupResponse → InternalLookupResponse → InternalLookupResponse
update_response [] kv_pairs response = response
update_response (key ∷ rest) kv_pairs response =
    update_response rest kv_pairs (insert_or_assign key (or_not_found (find key kv_pairs)) response)

unfoldable pub set_request_failed : List String → InternalLookupResponse → InternalLookupResponse
set_request_failed [] response = response
set_request_failed (key ∷ rest) response =
    set_request_failed rest (insert_or_assign key (status internal) response)

-- One round of the loop of ProcessShardedKeys.
unfoldable pub process_response :
    ShardLookupInput
    → StatusOr InternalLookupResponse
    → InternalLookupResponse
    → InternalLookupResponse
unfolding update_response set_request_failed
process_response x (err e) response = set_request_failed x.keys response
process_response x (ok kv_pairs) response = update_response x.keys kv_pairs response

unfoldable pub process_responses :
    List ShardLookupInput
    → List (StatusOr InternalLookupResponse)
    → InternalLookupResponse
    → InternalLookupResponse
unfolding process_response
process_responses (x ∷ xs) (r ∷ rs) response =
    process_responses xs rs (process_response x r response)
process_responses _ _ response = response

unfoldable pub process_sharded_keys : ShardedLookup → List String → StatusOr InternalLookupResponse
unfolding shard_keys get_lookup_futures process_responses is_empty
process_sharded_keys s keys = if is_empty keys then ok [] else do
  let inputs = shard_keys s keys false
  responses ← get_lookup_futures s s.local.get_key_values 0 inputs
  ok (process_responses inputs responses [])

unfoldable pub get_key_values : ShardedLookup → List String → StatusOr InternalLookupResponse
unfolding process_sharded_keys to_set
get_key_values s keys = process_sharded_keys s (to_set keys [])

-- GetLocalKeyValuesSet
unfoldable pub get_local_key_values_set :
    ShardedLookup → List String → StatusOr InternalLookupResponse
unfolding to_set is_empty
get_local_key_values_set s key_list =
    if is_empty key_list then ok [] else s.local.get_key_value_set (to_set key_list [])

-- One entry of a shard's response in CollectKeySets: a value that is not a set is passed over.
unfoldable pub collect_key_set : String → SingleLookupResult → Map (List String) → Map (List String)
unfolding to_set
collect_key_set key (status _) key_sets = key_sets
collect_key_set key (keyset_values vs) key_sets = insert_or_assign key (to_set vs []) key_sets
collect_key_set key (value _) key_sets = key_sets

unfoldable pub collect_key_sets : InternalLookupResponse → Map (List String) → Map (List String)
unfolding collect_key_set
collect_key_sets [] key_sets = key_sets
collect_key_sets ((key, r) ∷ rest) key_sets = collect_key_sets rest (collect_key_set key r key_sets)

-- The loop of GetShardedKeyValueSet: the first shard that failed ends it.
unfoldable pub collect_responses :
    List (StatusOr InternalLookupResponse) → Map (List String) → StatusOr (Map (List String))
unfolding collect_key_sets
collect_responses [] key_sets = ok key_sets
collect_responses (r ∷ rs) key_sets = do
  response ← r
  collect_responses rs (collect_key_sets response key_sets)

unfoldable pub get_sharded_key_value_set :
    ShardedLookup → List String → StatusOr (Map (List String))
unfolding shard_keys get_lookup_futures collect_responses get_local_key_values_set
get_sharded_key_value_set s key_set = do
  responses ← get_lookup_futures s (get_local_key_values_set s) 0 (shard_keys s key_set true)
  collect_responses responses []

abbrev pub single_key_set : Option (List String) → SingleLookupResult
single_key_set none = status not_found
single_key_set (some vs) = keyset_values vs

unfoldable pub fill_key_sets :
    List String → Map (List String) → InternalLookupResponse → InternalLookupResponse
fill_key_sets [] key_sets response = response
fill_key_sets (key ∷ rest) key_sets response =
    fill_key_sets rest key_sets (insert_or_assign key (single_key_set (find key key_sets)) response)

unfoldable pub get_key_value_set : ShardedLookup → List String → StatusOr InternalLookupResponse
unfolding get_sharded_key_value_set fill_key_sets is_empty
get_key_value_set s keys =
    if is_empty keys
    then ok []
    else do key_sets ← get_sharded_key_value_set s keys; ok (fill_key_sets keys key_sets [])

unfoldable pub view_of : Option (List String) → KvSetView
unfolding to_set
view_of none = []
view_of (some vs) = to_set vs []

-- The lookup function of the driver in RunQuery.
unfoldable pub keyset_of : Map (List String) → String → KvSetView
unfolding view_of
keyset_of keysets key = view_of (find key keysets)

-- The part of RunQuery behind the parser: a null root node is dereferenced.
unfoldable pub run_parsed : ShardedLookup → Parsed → Option Node → Option (StatusOr (List String))
unfolding get_sharded_key_value_set keyset_of to_response
run_parsed s p none = none
run_parsed s p (some root) = elim (keys root) [
  | none ↦ none
  | some key_set ↦ elim (get_sharded_key_value_set s key_set) [
    | err e ↦ some (err e)
    | ok keysets ↦ to_response (get_result (filled p (keyset_of keysets)))
  ]
]

unfoldable pub run_query :
    ShardedLookup → (String → Parsed) → String → Option (StatusOr (List String))
unfolding run_parsed
run_query s parse query =
    if query == ""
    then some (ok [])
    else if (parse query).failed
    then some (err invalid_argument)
    else run_parsed s (parse query) (parse query).ast
