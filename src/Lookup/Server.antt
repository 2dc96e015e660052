-- ===== src/Lookup/Server.antt =====
-- components/internal_server/lookup_server_impl.cc and remote_lookup_client_impl.cc: lookups for other
-- servers, and the client that asks for them. Arguments are the serialisation of protobuf messages, the
-- two sides of the oblivious HTTP encryption with the contexts that they keep from a request to its
-- response, and the call over gRPC.
pub mod RoundTrip
use fledge_key_value_service.Base.{
  ℕ, String, Bool, true, false, Option, none, some, List, [], if◌then◌else◌,
}
use fledge_key_value_service.Cache.Sets.{is_empty}
use fledge_key_value_service.Lookup.Types.{
  StatusOr, ok, err, cancelled, internal, invalid_argument, ◌>>=◌, InternalLookupRequest,
  InternalLookupResponse, Lookup,
}
use fledge_key_value_service.Lookup.Padder.{DataCodec, pad, unpad}
use fledge_key_value_service.Lookup.Sharded.{to_set}

-- `ClientContext` and `ServerContext` are what an encryptor keeps of a request.
pub record Protocol (ClientContext ServerContext : Type 0) : Type 0 where
  pub codec : DataCodec
  pub parse_request : List ℕ → Option InternalLookupRequest
  pub serialize_response : InternalLookupResponse → List ℕ
  pub parse_response : List ℕ → Option InternalLookupResponse
  pub encrypt_request : List ℕ → StatusOr (List ℕ × ClientContext)
  pub decrypt_request : List ℕ → StatusOr (List ℕ × ServerContext)
  pub encrypt_response : ServerContext → List ℕ → StatusOr (List ℕ)
  pub decrypt_response : ClientContext → List ℕ → StatusOr (List ℕ)

-- ToInternalGrpcStatus
unfoldable pub to_internal {ℓ} : {A : Type ℓ} → StatusOr A → StatusOr A
to_internal (ok a) = ok a
to_internal (err e) = err internal

-- A lookup that fails leaves the response empty.
unfoldable pub or_empty : StatusOr InternalLookupResponse → InternalLookupResponse
or_empty (ok response) = response
or_empty (err e) = []

module _ (lookup : Lookup) where
  unfoldable pub process_keys : List String → InternalLookupResponse
  unfolding or_empty is_empty
  process_keys keys = if is_empty keys then [] else or_empty (lookup.get_key_values keys)

  unfoldable pub process_keyset_keys : List String → InternalLookupResponse
  unfolding or_empty is_empty to_set
  process_keyset_keys keys =
      if is_empty keys then [] else or_empty (lookup.get_key_value_set (to_set keys []))

  unfoldable pub internal_lookup : Bool → InternalLookupRequest → StatusOr InternalLookupResponse
  unfolding process_keys
  internal_lookup is_cancelled request =
      if is_cancelled then err cancelled else ok (process_keys request.keys)

  unfoldable pub internal_run_query : Bool → String → Option (StatusOr (List String))
  unfolding to_internal
  internal_run_query is_cancelled query =
      if is_cancelled
      then some (err cancelled)
      else (elim (lookup.run_query query) [ none ↦ none | some result ↦ some (to_internal result) ])

  module _ {K S : Type 0} (protocol : Protocol K S) where
    unfoldable pub get_payload : InternalLookupRequest → List ℕ
    unfolding process_keys process_keyset_keys
    get_payload request = protocol.serialize_response (
        if request.lookup_sets then process_keyset_keys request.keys else process_keys request.keys)

    unfoldable pub parsed_request : Option InternalLookupRequest → StatusOr InternalLookupRequest
    parsed_request none = err internal
    parsed_request (some request) = ok request

    -- An empty payload is not encrypted: the response stays empty.
    unfoldable pub encrypt_payload : S → List ℕ → StatusOr (List ℕ)
    unfolding to_internal is_empty
    encrypt_payload context payload =
        if is_empty payload then ok [] else to_internal (protocol.encrypt_response context payload)

    unfoldable pub secure_lookup : Bool → List ℕ → StatusOr (List ℕ)
    unfolding to_internal get_payload parsed_request encrypt_payload
    secure_lookup is_cancelled ohttp_request = if is_cancelled then err cancelled else do
      (padded, context) ← to_internal (protocol.decrypt_request ohttp_request)
      serialized ← to_internal (unpad protocol.codec padded)
      request ← parsed_request (protocol.parse_request serialized)
      encrypt_payload context (get_payload request)

module _ {K S : Type 0} (protocol : Protocol K S) (send : List ℕ → StatusOr (List ℕ)) where
  unfoldable pub parsed_response : Option InternalLookupResponse → StatusOr InternalLookupResponse
  parsed_response none = err invalid_argument
  parsed_response (some response) = ok response

  unfoldable pub read_response : K → List ℕ → StatusOr InternalLookupResponse
  unfolding parsed_response is_empty
  read_response context ohttp_response = if is_empty ohttp_response then ok [] else do
    plain ← protocol.decrypt_response context ohttp_response
    parsed_response (protocol.parse_response plain)

  -- RemoteLookupClientImpl::GetValues
  unfoldable pub get_values : List ℕ → ℕ → StatusOr InternalLookupResponse
  unfolding read_response
  get_values serialized_message padding_length = do
    (encrypted, context) ←
        protocol.encrypt_request (pad protocol.codec serialized_message padding_length)
    ohttp_response ← send encrypted
    read_response context ohttp_response
