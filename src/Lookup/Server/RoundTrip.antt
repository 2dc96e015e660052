-- ===== src/Lookup/Server/RoundTrip.antt =====
-- A remote lookup through RemoteLookupClientImpl and LookupServiceImpl.
use fledge_key_value_service.Base.{ℕ, ◌≡◌, false, List, if◌then◌else◌}
use fledge_key_value_service.Cache.Sets.{is_empty}
use fledge_key_value_service.Lookup.Types.{
  ok, InternalLookupRequest, InternalLookupResponse, Lookup,
}
use fledge_key_value_service.Lookup.Server.{Protocol, process_keys, process_keyset_keys}

-- What the encryption does for one request: the server reads the plain text, and the client reads
-- every response whose payload is not empty. The encrypted form of such a payload is not empty; of an
-- empty payload nothing is asked, since it cannot be encrypted.
pub record IsSecure {K S : Type 0} (protocol : Protocol K S) (plain : List ℕ) : Type 0 where
  pub encrypted : List ℕ
  pub client_context : K
  pub server_context : S
  pub sent : protocol.encrypt_request plain ≡ ok (encrypted, client_context)
  pub received : protocol.decrypt_request encrypted ≡ ok (plain, server_context)
  pub response : List ℕ → List ℕ
  pub response-full :
      (payload : List ℕ) → is_empty payload ≡ false → is_empty (response payload) ≡ false
  pub response-sent :
      (payload : List ℕ)
      → is_empty payload ≡ false
      → protocol.encrypt_response server_context payload ≡ ok (response payload)
  pub response-received :
      (payload : List ℕ)
      → is_empty payload ≡ false
      → protocol.decrypt_response client_context (response payload) ≡ ok payload

-- The response of the server's own lookup to a request.
abbrev pub own_answer : Lookup → InternalLookupRequest → InternalLookupResponse
own_answer lookup request =
    if request.lookup_sets
    then process_keyset_keys lookup request.keys
    else process_keys lookup request.keys
