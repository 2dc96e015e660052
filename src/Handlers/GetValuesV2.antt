-- ===== src/Handlers/GetValuesV2.antt =====
-- components/data_server/request_handler/get_values_v2_handler.cc. Arguments are the JSON library, the call of
-- the user defined functions, and, for the binary and the oblivious form, the messages of QUICHE, the
-- encryptor and the concatenator of compression groups. The hash map of compression groups is a
-- list, in which the order is that of insertion.
pub mod Groups
use fledge_key_value_service.Base.{
  ℕ, zero, suc, String, Bool, true, false, Option, none, some, List, [], ◌∷◌, ◌++◌, map, eqb, ◌==◌,
  if◌then◌else◌,
}
use fledge_key_value_service.Lookup.Types.{
  StatusCode, StatusOr, ok, err, invalid_argument, internal, unimplemented, ◌>>=◌,
}
use fledge_key_value_service.Handlers.Json.{Json}

pub data CompressionType : Type 0 where
  uncompressed brotli : CompressionType

abbrev pub udf_input_api_version : ℕ
udf_input_api_version = 1

abbrev pub udf_output_api_version : ℕ
udf_output_api_version = 1

-- A missing value is the error.
unfoldable pub require {ℓ} : {A : Type ℓ} → StatusCode → Option A → StatusOr A
require code none = err code
require code (some a) = ok a

unfoldable pub check : StatusCode → Bool → StatusOr (Unit {0})
check code true = ok tt
check code false = err code

-- The groups with their numbers, and the outputs of their partitions.
abbrev pub Groups : Type 0 → Type 0
Groups J = List (ℕ × List J)

module _ {J : Type 0} (json : Json J) where
  -- The outputs are moved to a value that is null at first.
  unfoldable pub moved : List J → J
  moved [] = json.null
  moved (x ∷ xs) = json.array (x ∷ xs)

  unfoldable pub parse : String → StatusOr J
  unfolding require
  parse json_string = require invalid_argument (json.parse json_string)

  -- compression_group_map[group]["partitions"].emplace_back
  unfoldable pub emplace_back : ℕ → J → Groups J → Groups J
  emplace_back group output [] = (group, output ∷ []) ∷ []
  emplace_back group output ((n, outputs) ∷ rest) =
      let others = emplace_back group output rest in
      if eqb n group then (n, outputs ++ (output ∷ [])) ∷ rest else (n, outputs) ∷ others

  -- The output of a partition, or none, where it failed. The number of the group is the one that
  -- compression_group is initialised with.
  unfoldable pub add_result : StatusOr J → Groups J → Groups J
  unfolding emplace_back
  add_result (err e) groups = groups
  add_result (ok output) groups = emplace_back 0 output groups

  unfoldable pub group_json : ℕ × List J → J
  group_json (n, outputs) = json.object (("partitions", json.array outputs) ∷ [])

  module _ (execute_code : List String → StatusOr String) where
    unfoldable pub execute_udf_for_key_groups : J → StatusOr J
    unfolding parse
    execute_udf_for_key_groups udf_input = do
      output ← execute_code (json.dump udf_input ∷ [])
      parse output

    unfoldable pub process_partition : J → J → StatusOr J
    unfolding require check execute_udf_for_key_groups moved
    process_partition context partition = do
      key_groups ← require invalid_argument (json.find "keyGroups" partition)
      outputs ← execute_udf_for_key_groups (
          json.object (
            ("context", context)
            ∷ ("keyGroups", key_groups)
            ∷ ("udfInputApiVersion", json.number udf_input_api_version)
            ∷ []))
      version ← require internal (json.find "udfOutputApiVersion" outputs)
      _ ← check internal (json.is_equal_to udf_output_api_version version)
      groups ← require internal (json.find "keyGroupOutputs" outputs)
      _ ← check internal (json.is_array groups)
      ok (
          json.object
            (("id", json.at "id" partition) ∷ ("keyGroupOutputs", moved (json.items groups)) ∷ []))

    unfoldable pub check_group : Option J → StatusOr (Unit {0})
    unfolding check
    check_group none = err invalid_argument
    check_group (some group) = check invalid_argument (json.is_number_integer group)

    -- The loop over the partitions.
    unfoldable pub process_partitions : J → List J → Groups J → StatusOr (Groups J)
    unfolding check_group process_partition add_result
    process_partitions context [] groups = ok groups
    process_partitions context (partition ∷ rest) groups =
        let next =
          process_partitions context rest
            (add_result (process_partition context partition) groups) in
        check_group (json.find "compressionGroup" partition) >>= (λ _. next)

    unfoldable pub process_get_values_core_request : J → StatusOr (List J)
    unfolding require process_partitions group_json
    process_get_values_core_request core_data = do
      partitions ← require invalid_argument (json.find "partitions" core_data)
      context ← require invalid_argument (json.find "context" core_data)
      groups ← process_partitions context (json.items partitions) []
      ok (map group_json groups)

    -- push_back to a value that is null at first.
    unfoldable pub build_compression_groups_for_debugging : List J → J
    unfolding moved
    build_compression_groups_for_debugging groups = moved groups

    unfoldable pub get_values_json_response : String → StatusOr J
    unfolding parse process_get_values_core_request build_compression_groups_for_debugging
    get_values_json_response raw_body = do
      core_data ← parse raw_body
      groups ← process_get_values_core_request core_data
      ok (build_compression_groups_for_debugging groups)

    -- The status of the call of gRPC.
    unfoldable pub get_values_http : String → StatusOr String
    unfolding get_values_json_response
    get_values_http raw_body = elim (get_values_json_response raw_body) [
      | ok response ↦ ok (json.dump response)
      | err e ↦ err internal
    ]

-- The messages of binary HTTP.
pub record HttpRequest : Type 0 where
  pub headers : List (String × String)
  pub body : String

pub record HttpResponse : Type 0 where
  pub status_code : ℕ
  pub headers : List (String × String)
  pub body : String

module _ (lower : String → String) where
  -- The first header of that name with that value decides.
  unfoldable pub get_response_compression_type : List (String × String) → CompressionType
  get_response_compression_type [] = uncompressed
  get_response_compression_type ((name, value) ∷ rest) =
      let others = get_response_compression_type rest in
      if lower name == "accept-encoding"
      then (if lower value == "br" then brotli else others)
      else others

unfoldable pub content_headers : CompressionType → List (String × String)
content_headers uncompressed = []
content_headers brotli = ("content-encoding", "br") ∷ []

-- QUICHE, the conversion to lower case, and the concatenator that is made for a type.
pub record Http : Type 0 where
  pub create : String → StatusOr HttpRequest
  pub serialize : HttpResponse → StatusOr String
  pub lower : String → String
  pub concatenate : CompressionType → List String → StatusOr String
  pub decrypt : String → StatusOr String
  pub encrypt : String → StatusOr String

-- A status that is not OK is INTERNAL in gRPC.
unfoldable pub to_internal {ℓ} : {A : Type ℓ} → StatusOr A → StatusOr A
to_internal (ok a) = ok a
to_internal (err e) = err internal

-- The response where there is none is 500.
unfoldable pub response_or_default : StatusOr HttpResponse → HttpResponse
response_or_default (ok response) = response
response_or_default (err e) = record { status_code = 500; headers = []; body = "" }

module _ {J : Type 0} (json : Json J) (execute_code : List String → StatusOr String)
    (http : Http) where
  unfoldable pub build_successful_response : String → StatusOr HttpResponse
  unfolding parse process_get_values_core_request get_response_compression_type content_headers
  build_successful_response request_body = do
    request ← http.create request_body
    core_data ← parse json request.body
    groups ← process_get_values_core_request json execute_code core_data
    body ← http.concatenate uncompressed (map json.dump groups)
    ok (record {
      status_code = 200;
      headers = content_headers (get_response_compression_type http.lower request.headers);
      body = body;
    })

  unfoldable pub binary_http_get_values : String → StatusOr String
  unfolding build_successful_response response_or_default to_internal
  binary_http_get_values request_body =
      to_internal (http.serialize (response_or_default (build_successful_response request_body)))

  unfoldable pub oblivious_get_values : String → StatusOr String
  unfolding binary_http_get_values to_internal
  oblivious_get_values request = do
    plain_text ← to_internal (http.decrypt request)
    response ← binary_http_get_values plain_text
    to_internal (http.encrypt response)

pub record RequestPartition {ℓ} (Arguments : Type ℓ) : Type ℓ where
  pub id : ℕ
  pub arguments : Arguments

-- Either the output or the status is set.
pub record ResponsePartition : Type 0 where
  pub id : ℕ
  pub output : StatusOr String

module _ {ℓ} {Arguments : Type ℓ} (execute_code : Arguments → StatusOr String) where
  unfoldable pub process_one_partition : RequestPartition Arguments → ResponsePartition
  process_one_partition p = record { id = p.id; output = execute_code p.arguments }

  unfoldable pub get_values : List (RequestPartition Arguments) → StatusOr ResponsePartition
  unfolding process_one_partition
  get_values [] = err unimplemented
  get_values (p ∷ []) = ok (process_one_partition p)
  get_values (_ ∷ _ ∷ _) = err unimplemented
