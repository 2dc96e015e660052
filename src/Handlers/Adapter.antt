-- ===== src/Handlers/Adapter.antt =====
-- components/data_server/request_handler/get_values_adapter.cc: requests of the first version as requests of the
-- second. Arguments are the JSON library, the messages that JsonStringToMessage gives, and the
-- handler of the second version; a value of a response is of any type.
pub mod Namespaces
use fledge_key_value_service.Base.{
  ℕ, suc, String, Bool, true, false, not, ◌||◌, Option, none, some, List, [], ◌∷◌, ◌++◌, map, ◌==◌,
  if◌then◌else◌,
}
use fledge_key_value_service.Base.Maps.{Map, insert_or_assign}
use fledge_key_value_service.Cache.Sets.{is_empty}
use fledge_key_value_service.Lookup.Types.{StatusOr, ok, err, invalid_argument, internal, ◌>>=◌}
use fledge_key_value_service.Handlers.Json.{Json}

-- The request of the first version.
pub record Request : Type 0 where
  pub subkey : String
  pub keys : List String
  pub render_urls : List String
  pub ad_component_render_urls : List String
  pub kv_internal : List String

-- The fields of the response of the first version, each a struct.
pub record Response (V : Type 0) : Type 0 where
  pub keys : Map V
  pub render_urls : Map V
  pub ad_component_render_urls : Map V
  pub kv_internal : Map V

pub record KeyGroupOutput (V : Type 0) : Type 0 where
  pub tags : List String
  pub key_values : List (String × V)

-- The loop of FindNamespace, with what it has found so far.
unfoldable pub find_tags : List String → Bool → String → Bool × String
find_tags [] has_custom_tag maybe_namespace_tag = (has_custom_tag, maybe_namespace_tag)
find_tags (tag ∷ tags) has_custom_tag maybe_namespace_tag =
    let custom = find_tags tags true maybe_namespace_tag in
    let other = find_tags tags has_custom_tag tag in if tag == "custom" then custom else other

unfoldable pub namespace_of : Bool × String → StatusOr String
namespace_of (true, namespace) = ok namespace
namespace_of (false, _) = err invalid_argument

-- There are two tags, or it is an error.
unfoldable pub find_namespace : List String → StatusOr String
unfolding find_tags namespace_of
find_namespace [] = err invalid_argument
find_namespace (_ ∷ []) = err invalid_argument
find_namespace (a ∷ b ∷ []) = namespace_of (find_tags (a ∷ b ∷ []) false "")
find_namespace (_ ∷ _ ∷ _ ∷ _) = err invalid_argument

module _ {V : Type 0} (string_value : V → Option String)
    (json_string_to_message : String → StatusOr V) where
  unfoldable pub insert_parsed : String → StatusOr V → Map V → Map V
  insert_parsed k (err e) fields = fields
  insert_parsed k (ok parsed) fields = insert_or_assign k parsed fields

  unfoldable pub insert_string : String → Option String → Map V → Map V
  unfolding insert_parsed
  insert_string k none fields = fields
  insert_string k (some s) fields = insert_parsed k (json_string_to_message s) fields

  -- The value is assigned whether or not a parsed one was before.
  unfoldable pub process_key_values : List (String × V) → Map V → Map V
  unfolding insert_string
  process_key_values [] fields = fields
  process_key_values ((k, v) ∷ rest) fields =
      process_key_values rest (insert_or_assign k v (insert_string k (string_value v) fields))

  -- The output goes to the field of its namespace.
  unfoldable pub add_output : StatusOr String → List (String × V) → Response V → Response V
  unfolding process_key_values
  add_output (err e) key_values r = r
  add_output (ok namespace) key_values r =
      let keys = process_key_values key_values r.keys in
      let render_urls = process_key_values key_values r.render_urls in
      let ad_component_render_urls = process_key_values key_values r.ad_component_render_urls in
      let kv_internal = process_key_values key_values r.kv_internal in
      record {
        keys = if namespace == "keys" then keys else r.keys;
        render_urls = if namespace == "renderUrls" then render_urls else r.render_urls;
        ad_component_render_urls =
            if namespace == "adComponentRenderUrls"
            then ad_component_render_urls
            else r.ad_component_render_urls;
        kv_internal = if namespace == "kvInternal" then kv_internal else r.kv_internal;
      }

  unfoldable pub process_key_group_output : KeyGroupOutput V → Response V → Response V
  unfolding find_namespace add_output
  process_key_group_output output r = add_output (find_namespace output.tags) output.key_values r

  unfoldable pub process_outputs : List (KeyGroupOutput V) → Response V → Response V
  unfolding process_key_group_output
  process_outputs [] r = r
  process_outputs (output ∷ rest) r = process_outputs rest (process_key_group_output output r)

  -- The loop over the compression groups, each read as the outputs of all its partitions. On an error
  -- the response has what was added before.
  unfoldable pub process_groups :
      List (StatusOr (List (KeyGroupOutput V))) → Response V → Response V × StatusOr (Unit {0})
  unfolding process_outputs
  process_groups [] r = (r, ok tt)
  process_groups (err e ∷ rest) r = (r, err internal)
  process_groups (ok outputs ∷ rest) r = process_groups rest (process_outputs outputs r)

  module _ {J : Type 0} (json : Json J) (to_outputs : J → StatusOr (List (KeyGroupOutput V))) where
    unfoldable pub build_v1_response : J → Response V → Response V × StatusOr (Unit {0})
    unfolding process_groups
    build_v1_response response r =
        if json.is_null response
        then (r, err internal)
        else if not (json.is_array response)
        then (r, err invalid_argument)
        else process_groups (map to_outputs (json.items response)) r

module _ {J : Type 0} (json : Json J) where
  unfoldable pub build_key_group : List String → String → J
  build_key_group keys namespace_tag = json.object (
      ("tags", json.array (json.string "custom" ∷ json.string namespace_tag ∷ []))
      ∷ ("keyList", json.array (map json.string keys))
      ∷ [])

  -- A group for the keys, if there are any.
  unfoldable pub key_groups : List String → String → List J
  unfolding build_key_group
  key_groups keys namespace_tag =
      if is_empty keys then [] else build_key_group keys namespace_tag ∷ []

  -- BuildV2Request before it is written as a string.
  unfoldable pub request_json : Request → J
  unfolding key_groups
  request_json r =
      let groups =
        key_groups r.keys "keys"
        ++ key_groups r.render_urls "renderUrls"
        ++ key_groups r.ad_component_render_urls "adComponentRenderUrls"
        ++ key_groups r.kv_internal "kvInternal" in
      let partition = json.object (
        ("id", json.number 0)
        ∷ ("compressionGroup", json.number 0)
        ∷ ("keyGroups", json.array groups)
        ∷ []) in
      json.object (
        ("context", json.object (("subkey", json.string r.subkey) ∷ []))
        ∷ ("partitions", json.array (partition ∷ []))
        ∷ ("udfInputApiVersion", json.number 1)
        ∷ [])

  unfoldable pub build_v2_request : Request → String
  unfolding request_json
  build_v2_request r = json.dump (request_json r)
