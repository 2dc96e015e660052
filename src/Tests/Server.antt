-- ===== src/Tests/Server.antt =====
-- A remote lookup of one key, with a mark in place of the encryption.
use fledge_key_value_service.Base.{ℕ, ◌≡◌, refl, true, false, Option, some, List, [], ◌∷◌}
use fledge_key_value_service.Lookup.Types.{
  StatusOr, ok, err, invalid_argument, cancelled, InternalLookupRequest, InternalLookupResponse,
  Lookup,
}
use fledge_key_value_service.Lookup.Local.{local_lookup}
use fledge_key_value_service.Lookup.Server.{Protocol, internal_lookup}
use fledge_key_value_service.Lookup.Server.RoundTrip.{own_answer}
use fledge_key_value_service.Tests.Lookup.{network, cache, emptied, parse}

abbrev server : Lookup
server = local_lookup emptied parse cache

abbrev request : InternalLookupRequest
request = record { keys = "a" ∷ []; lookup_sets = false }

-- The text behind the mark.
unmarked : List ℕ → StatusOr (List ℕ)
unmarked [] = err invalid_argument
unmarked (_ ∷ text) = ok text

unmarked_request : List ℕ → StatusOr (List ℕ × Unit {0})
unmarked_request [] = err invalid_argument
unmarked_request (_ ∷ text) = ok (text, tt)

-- An empty text cannot be marked.
mark : List ℕ → StatusOr (List ℕ)
mark [] = err invalid_argument
mark (x ∷ text) = ok (1 ∷ x ∷ text)

read_answer : List ℕ → Option InternalLookupResponse
read_answer [] = some []
read_answer (_ ∷ _) = some (own_answer server request)

abbrev marked : Protocol (Unit {0}) (Unit {0})
marked = record {
  codec = network;
  parse_request = λ message. some request;
  serialize_response = λ response. 5 ∷ [];
  parse_response = read_answer;
  encrypt_request = λ text. ok (1 ∷ text, tt);
  decrypt_request = unmarked_request;
  encrypt_response = λ context text. mark text;
  decrypt_response = λ context text. unmarked text;
}

cancelled_lookup : internal_lookup server true request ≡ err cancelled
unfolding internal_lookup
cancelled_lookup = refl
