-- ===== src/Lookup/Types.antt =====
-- The messages of components/internal_server/lookup.proto, statuses, and the interface of lookup.h.
-- Status messages are left out.
use fledge_key_value_service.Base.{◌≡◌, refl, ◌⊎◌, inl, inr, String, Bool, Option, List}
use fledge_key_value_service.Base.Maps.{Map}

pub data StatusCode : Type 0 where
  invalid_argument not_found internal cancelled unavailable deadline_exceeded unimplemented :
      StatusCode

-- absl::StatusOr<A>, and absl::Status as StatusOr of nothing.
pub data StatusOr {ℓ} (A : Type ℓ) : Type ℓ where
  ok : A → StatusOr A
  err : StatusCode → StatusOr A

infixl 5 ◌>>=◌
abbrev pub ◌>>=◌ {ℓ κ} : {A : Type ℓ} {B : Type κ} → StatusOr A → (A → StatusOr B) → StatusOr B
ok a >>= f = f a
err e >>= f = err e

pub StatusOr-cases {ℓ} :
    {A : Type ℓ} (r : StatusOr A) → ((a : A) × (r ≡ ok a)) ⊎ ((e : StatusCode) × (r ≡ err e))
StatusOr-cases (ok a) = inl (a, refl)
StatusOr-cases (err e) = inr (e, refl)

pub data SingleLookupResult : Type 0 where
  value : String → SingleLookupResult
  status : StatusCode → SingleLookupResult
  keyset_values : List String → SingleLookupResult

-- `kv_pairs` of InternalLookupResponse.
abbrev pub InternalLookupResponse : Type 0
InternalLookupResponse = Map SingleLookupResult

pub record InternalLookupRequest : Type 0 where
  pub keys : List String
  pub lookup_sets : Bool

-- Lookup of lookup.h. `none` of `run_query` stands for a null pointer that is dereferenced.
pub record Lookup : Type 0 where
  pub get_key_values : List String → StatusOr InternalLookupResponse
  pub get_key_value_set : List String → StatusOr InternalLookupResponse
  pub run_query : String → Option (StatusOr (List String))
