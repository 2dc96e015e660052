-- ===== src/Handlers/GetValues.antt =====
-- components/data_server/request_handler/get_values_handler.cc, with CallV2Handler of get_values_adapter.cc.
-- Arguments are the split of a string at commas and the messages that JsonStringToMessage gives; a
-- value of a response is of any type.
pub mod Keys
use fledge_key_value_service.Base.{
  String, Bool, true, false, Option, List, [], ◌∷◌, ◌++◌, if◌then◌else◌,
}
use fledge_key_value_service.Base.Maps.{Map, insert_or_assign}
use fledge_key_value_service.Cache.State.{KeyValueCache}
use fledge_key_value_service.Cache.KeyValue.{get_key_value_pairs}
use fledge_key_value_service.Cache.Sets.{is_empty}
use fledge_key_value_service.Lookup.Types.{StatusOr, ok, err, internal}
use fledge_key_value_service.Handlers.Json.{Json}
use fledge_key_value_service.Handlers.GetValuesV2.{get_values_json_response, to_internal}
use fledge_key_value_service.Handlers.Adapter.{
  Request, Response, KeyGroupOutput, build_v1_response, build_v2_request,
}

-- The key argument is split at kQueryArgDelimiter.
unfoldable pub get_keys : (String → List String) → List String → List String
get_keys split [] = []
get_keys split (key ∷ keys) = split key ++ get_keys split keys

module _ {V : Type 0} (split : String → List String) (json_string_to_message : String → StatusOr V)
    (set_string_value : String → V) where
  unfoldable pub parsed_or_string : String → StatusOr V → V
  parsed_or_string v (ok parsed) = parsed
  parsed_or_string v (err e) = set_string_value v

  -- The loop over the pairs.
  unfoldable pub insert_pairs : Map String → Map V → Map V
  unfolding parsed_or_string
  insert_pairs [] result = result
  insert_pairs ((k, v) ∷ rest) result =
      insert_pairs rest (insert_or_assign k (parsed_or_string v (json_string_to_message v)) result)

  unfoldable pub process_keys : List String → KeyValueCache → Map V → Map V
  unfolding get_keys insert_pairs
  process_keys keys cache result =
      if is_empty keys
      then result
      else insert_pairs (get_key_value_pairs cache (get_keys split keys)) result

  -- GetValues where it does not use the second version.
  unfoldable pub get_values_v1 : Request → KeyValueCache → Response V → Response V
  unfolding process_keys
  get_values_v1 request cache response = record {
    kv_internal = process_keys request.kv_internal cache response.kv_internal;
    keys = process_keys request.keys cache response.keys;
    render_urls = process_keys request.render_urls cache response.render_urls;
    ad_component_render_urls =
        process_keys request.ad_component_render_urls cache response.ad_component_render_urls;
  }

module _ {V J : Type 0} (string_value : V → Option String)
    (json_string_to_message : String → StatusOr V) (json : Json J)
    (to_outputs : J → StatusOr (List (KeyGroupOutput V)))
    (execute_code : List String → StatusOr String) where
  unfoldable pub after_v2 : StatusOr J → Response V → Response V × StatusOr (Unit {0})
  unfolding build_v1_response to_internal
  after_v2 (err e) response = (response, err internal)
  after_v2 (ok v2_response) response =
      let (built, status) =
        build_v1_response string_value json_string_to_message json to_outputs v2_response
          response in
      (built, to_internal status)

  unfoldable pub call_v2_handler : Request → Response V → Response V × StatusOr (Unit {0})
  unfolding after_v2 get_values_json_response build_v2_request
  call_v2_handler request response =
      after_v2 (get_values_json_response json execute_code (build_v2_request json request)) response
