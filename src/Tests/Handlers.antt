-- ===== src/Tests/Handlers.antt =====
-- The request handlers on small inputs, with a small type of JSON values.
use fledge_key_value_service.Base.{
  ℕ, ◌+◌, ◌≡◌, refl, inr, String, Bool, true, false, Option, none, some, List, [], ◌∷◌, ◌==◌, eqb,
  if◌then◌else◌,
}
use fledge_key_value_service.Base.Maps.{find, contains, insert_or_assign, erase}
use fledge_key_value_service.Cache.State.{KeyValueCache, create, zero_time}
use fledge_key_value_service.Cache.KeyValue.{
  update_key_value, assign, get_key_value_pairs, collect_pairs, add_pair,
}
use fledge_key_value_service.Cache.KeyValue.Lookup.{visible}
use fledge_key_value_service.Cache.Sets.{is_empty}
use fledge_key_value_service.Lookup.Types.{StatusOr, ok, err, invalid_argument, internal}
use fledge_key_value_service.Handlers.Json.{Json}
use fledge_key_value_service.Handlers.GetValuesV2.{
  moved, parse, require, check, check_group, emplace_back, add_result, group_json,
  execute_udf_for_key_groups, process_partition, process_partitions,
  process_get_values_core_request, build_compression_groups_for_debugging, get_values_json_response,
  get_values_http, Http, uncompressed, brotli, get_response_compression_type, content_headers,
  build_successful_response, to_internal,
}
use fledge_key_value_service.Handlers.Adapter.{
  Response, process_key_group_output, find_namespace, find_tags, namespace_of, add_output,
  process_key_values, insert_string, insert_parsed,
}
use fledge_key_value_service.Handlers.Adapter.Namespaces
use fledge_key_value_service.Handlers.Adapter.Namespaces.{
  field, tag_of, last_value, process_key_group_output_lem,
}
use fledge_key_value_service.Handlers.GetValues.{
  get_keys, parsed_or_string, insert_pairs, process_keys,
}
use fledge_key_value_service.Handlers.GetValues.Keys.{is_requested, answer, process_keys-answer}

-- Arrays and objects as chains of their elements and fields.
data Value : Type 0 where
  null nil empty : Value
  number : ℕ → Value
  string : String → Value
  element : Value → Value → Value
  member : String → Value → Value → Value

abbrev array_of : List Value → Value
array_of [] = nil
array_of (x ∷ xs) = element x (array_of xs)

abbrev object_of : List (String × Value) → Value
object_of [] = empty
object_of ((k, v) ∷ rest) = member k v (object_of rest)

abbrev find_member : String → Value → Option Value
find_member k (member j v rest) = let later = find_member k rest in if j == k then some v else later
find_member k _ = none

abbrev items_of : Value → List Value
items_of (element x rest) = x ∷ items_of rest
items_of _ = []

abbrev is_array_value : Value → Bool
is_array_value nil = true
is_array_value (element _ _) = true
is_array_value _ = false

abbrev is_number : Value → Bool
is_number (number _) = true
is_number _ = false

abbrev is_null_value : Value → Bool
is_null_value null = true
is_null_value _ = false

abbrev is_number_of : ℕ → Value → Bool
is_number_of n (number m) = eqb m n
is_number_of n _ = false

abbrev or_null : Option Value → Value
or_null none = null
or_null (some v) = v

abbrev udf_output : Value
udf_output =
    object_of (
      ("udfOutputApiVersion", number 1) ∷ ("keyGroupOutputs", array_of (string "output" ∷ [])) ∷ [])

-- Two partitions of different groups, and one without keys between them.
abbrev partitions : Value
partitions = array_of (
    object_of (("id", number 1) ∷ ("compressionGroup", number 0) ∷ ("keyGroups", nil) ∷ [])
    ∷ object_of (("id", number 2) ∷ ("compressionGroup", number 0) ∷ [])
    ∷ object_of (("id", number 3) ∷ ("compressionGroup", number 7) ∷ ("keyGroups", nil) ∷ [])
    ∷ [])

abbrev request : Value
request = object_of (("partitions", partitions) ∷ ("context", empty) ∷ [])

abbrev json : Json Value
json = record {
  find = find_member;
  at = λ k v. or_null (find_member k v);
  items = items_of;
  is_array = is_array_value;
  is_null = is_null_value;
  is_number_integer = is_number;
  is_equal_to = is_number_of;
  null = null;
  number = number;
  string = string;
  array = array_of;
  object = object_of;
  parse =
      λ s. if s == "udf" then some udf_output else if s == "request" then some request else none;
  dump = λ v. "dumped";
}

abbrev execute_code : List String → StatusOr String
execute_code inputs = ok "udf"

handlers_program : Unit {0}
unfolding moved parse require check check_group emplace_back add_result group_json
    execute_udf_for_key_groups process_partition process_partitions process_get_values_core_request
    build_compression_groups_for_debugging get_values_json_response get_values_http
    get_response_compression_type content_headers build_successful_response to_internal
    process_key_group_output find_namespace find_tags namespace_of add_output process_key_values
    insert_string insert_parsed get_keys parsed_or_string insert_pairs process_keys find
    insert_or_assign contains erase update_key_value assign get_key_value_pairs collect_pairs
    add_pair is_empty
handlers_program = tt

abbrev output_of : ℕ → Value
output_of n =
    object_of (("id", number n) ∷ ("keyGroupOutputs", array_of (string "output" ∷ [])) ∷ [])

core_runs :
    process_get_values_core_request json execute_code request
    ≡ ok (object_of (("partitions", array_of (output_of 1 ∷ output_of 3 ∷ [])) ∷ []) ∷ [])
unfolding handlers_program
core_runs = refl

http_runs :
    (get_values_http json execute_code "request" ≡ ok "dumped")
    × (get_values_http json execute_code "other" ≡ err internal)
unfolding handlers_program
http_runs = (refl, refl)

abbrev http : Http
http = record {
  create = λ s. ok (record { headers = ("accept-encoding", "br") ∷ []; body = s });
  serialize = λ r. ok r.body;
  lower = λ s. s;
  concatenate = λ type groups. elim type [ uncompressed ↦ ok "plain" | brotli ↦ ok "compressed" ];
  decrypt = λ s. ok s;
  encrypt = λ s. ok s;
}

-- The header says Brotli, and the body is not compressed.
brotli_runs :
    build_successful_response json execute_code http "request"
    ≡ ok (record { status_code = 200; headers = ("content-encoding", "br") ∷ []; body = "plain" })
unfolding handlers_program
brotli_runs = refl

-- Values are strings; a string "1" can be parsed as JSON.
abbrev to_message : String → StatusOr String
to_message s = if s == "1" then ok "number" else err invalid_argument

abbrev response : Response String
response = record {
  keys = ("b", "old") ∷ [];
  render_urls = [];
  ad_component_render_urls = [];
  kv_internal = [];
}

process_key_group_output_lem_example :
    find "a" (
      field Namespaces.keys (
        process_key_group_output
          (λ s. some s)
          to_message
          (record { tags = "keys" ∷ "custom" ∷ []; key_values = ("a", "1") ∷ [] })
          response))
    ≡ (if tag_of Namespaces.keys == tag_of Namespaces.keys
        then last_value "a" (("a", "1") ∷ []) (find "a" (field Namespaces.keys response))
        else find "a" (field Namespaces.keys response))
process_key_group_output_lem_example =
    process_key_group_output_lem (λ s. some s) to_message Namespaces.keys Namespaces.keys "a"
      ("keys" ∷ "custom" ∷ []) (("a", "1") ∷ []) response (inr refl)

abbrev split : String → List String
split s = if s == "a,b" then "a" ∷ "b" ∷ [] else s ∷ []

abbrev cache : KeyValueCache
cache = update_key_value create "a" "1" (zero_time + 5)

process_keys-answer_example :
    find "a" (process_keys split to_message (λ s. s) ("a,b" ∷ "c" ∷ []) cache [])
    ≡ answer split to_message
        (λ s. s)
        (if is_requested split "a" ("a,b" ∷ "c" ∷ []) then visible cache "a" else none)
        (find "a" [])
process_keys-answer_example =
    process_keys-answer split to_message (λ s. s) ("a,b" ∷ "c" ∷ []) cache [] "a"
