-- ===== src/Lookup/Local.antt =====
-- components/internal_server/local_lookup.cc: lookups in the server's own cache.
-- The parser is generated from components/query/parser.yy and scanner.ll; it is the argument `parse`.
-- Moving a string out of a map entry leaves the entry in a valid but unspecified state: `moved` gives
-- the string that is left behind.
pub mod Values
pub mod Queries
use fledge_key_value_service.Base.{
  String, Bool, true, false, Option, none, some, List, [], ◌∷◌, if◌then◌else◌, ◌==◌,
}
use fledge_key_value_service.Base.Maps.{Map, find, insert_or_assign}
use fledge_key_value_service.Cache.State.{KeyValueCache}
use fledge_key_value_service.Cache.KeyValue.{get_key_value_pairs}
use fledge_key_value_service.Cache.Sets
use fledge_key_value_service.Cache.Sets.{GetKeyValueSetResult, get_value_set, is_empty}
use fledge_key_value_service.Query.Sets.{KvSetView}
use fledge_key_value_service.Query.Ast.{Node, keys}
use fledge_key_value_service.Query.Driver.{
  Driver, Outcome, elements, stuck, get_result, get_root_node,
}
use fledge_key_value_service.Query.Driver
use fledge_key_value_service.Lookup.Types.{
  StatusCode, invalid_argument, not_found, internal, StatusOr, ok, err, SingleLookupResult, value,
  status, keyset_values, InternalLookupResponse, Lookup,
}

-- What a run of the parser leaves: whether it failed, and the driver's tree and error.
pub record Parsed : Type 0 where
  pub failed : Bool
  pub ast : Option Node
  pub error : Option String

abbrev pub single_value : Option String → SingleLookupResult
single_value none = status not_found
single_value (some v) = value v

module _ (moved : String → String) where
  -- The entry of the key after its value has been moved into the result.
  unfoldable pub move_out : String → Option String → Map String → Map String
  move_out key none kv_pairs = kv_pairs
  move_out key (some v) kv_pairs = insert_or_assign key (moved v) kv_pairs

  -- The loop of ProcessKeys, over the keys that are left, the cache's pairs and the response so far.
  unfoldable pub fill_values :
      List String → Map String → InternalLookupResponse → InternalLookupResponse
  unfolding move_out
  fill_values [] kv_pairs response = response
  fill_values (key ∷ rest) kv_pairs response =
      fill_values rest (move_out key (find key kv_pairs) kv_pairs)
        (insert_or_assign key (single_value (find key kv_pairs)) response)

  unfoldable pub process_keys : KeyValueCache → List String → InternalLookupResponse
  unfolding fill_values is_empty
  process_keys c keys =
      if is_empty keys then [] else fill_values keys (get_key_value_pairs c keys) []

abbrev pub single_set : List String → SingleLookupResult
single_set value_set = if is_empty value_set then status not_found else keyset_values value_set

unfoldable pub fill_sets :
    List String → GetKeyValueSetResult → InternalLookupResponse → InternalLookupResponse
fill_sets [] result response = response
fill_sets (key ∷ rest) result response =
    fill_sets rest result (insert_or_assign key (single_set (get_value_set result key)) response)

unfoldable pub process_keyset_keys : KeyValueCache → List String → InternalLookupResponse
unfolding fill_sets is_empty
process_keyset_keys c key_set =
    if is_empty key_set then [] else fill_sets key_set (Sets.get_key_value_set c key_set) []

-- The driver that the parser has filled, bound to the result of the cache.
abbrev pub filled : Parsed → (String → KvSetView) → Driver
filled p lookup_fn = record { lookup_fn = lookup_fn; ast = p.ast; error = p.error }

-- The elements of a response; a status that is not OK is passed on.
unfoldable pub to_response : Outcome → Option (StatusOr (List String))
to_response (Driver.invalid_argument m) = some (err invalid_argument)
to_response (elements s) = some (ok s)
to_response stuck = none

-- The part of ProcessQuery behind the parser: a null root node is dereferenced.
unfoldable pub run_parsed : KeyValueCache → Parsed → Option Node → Option (StatusOr (List String))
unfolding to_response
run_parsed c p none = none
run_parsed c p (some root) = elim (keys root) [
  | none ↦ none
  | some key_set ↦
      to_response (get_result (filled p (get_value_set (Sets.get_key_value_set c key_set))))
]

module _ (parse : String → Parsed) where
  -- An OK status without a value is turned into an internal error by StatusOr.
  unfoldable pub process_query : KeyValueCache → String → Option (StatusOr (List String))
  unfolding run_parsed
  process_query c query =
      if query == ""
      then some (err internal)
      else if (parse query).failed
      then some (err invalid_argument)
      else run_parsed c (parse query) (parse query).ast

-- CreateLocalLookup
unfoldable pub local_lookup : (String → String) → (String → Parsed) → KeyValueCache → Lookup
local_lookup moved parse c = record {
  get_key_values = λ keys. ok (process_keys moved c keys);
  get_key_value_set = λ key_set. ok (process_keyset_keys c key_set);
  run_query = process_query parse c;
}
