-- ===== src/Udf.antt =====
-- components/udf/udf_client.cc. Roma, which runs the code, is an argument: what LoadCodeObj and Execute do to
-- it, and what they call back. The code objects of the records have no WebAssembly. A commit time is
-- kept as in the cache.
pub mod Newest
use fledge_key_value_service.Base.{
  ℕ, suc, ◌-◌, String, Bool, true, false, Option, none, some, List, [], ◌∷◌, leb, if◌then◌else◌,
}
use fledge_key_value_service.Cache.State.{zero_time}
use fledge_key_value_service.Lookup.Types.{StatusOr, ok, err, internal, ◌>>=◌}
use fledge_key_value_service.Loading.Records.{CodeConfig}

-- The fields of UdfClientImpl.
pub record UdfClient : Type 0 where
  pub handler_name : String
  pub logical_commit_time : ℕ
  pub version : ℕ

-- The time -1 and the version 1.
abbrev pub initial : UdfClient
initial = record { handler_name = ""; logical_commit_time = zero_time - 1; version = 1 }

pub record CodeObject : Type 0 where
  pub version_num : ℕ
  pub js : String

pub record InvocationRequest : Type 0 where
  pub version_num : ℕ
  pub handler_name : String
  pub input : List String

-- The status of a call, and within it what it calls back, or none until the time out.
pub record Roma (R : Type 0) : Type 0 where
  pub load_code_obj : R → CodeObject → R × StatusOr (Option (StatusOr (Unit {0})))
  pub execute : R → InvocationRequest → StatusOr (Option (StatusOr String))

unfoldable pub build_code_object : CodeConfig → CodeObject
build_code_object config = record { version_num = config.version; js = config.js }

unfoldable pub build_invocation_request : UdfClient → List String → InvocationRequest
build_invocation_request client keys = record {
  version_num = client.version;
  handler_name = client.handler_name;
  input = keys;
}

-- The wait for the notification, and the status of the response.
unfoldable pub wait_for_response : {A : Type 0} → Option (StatusOr A) → StatusOr A
wait_for_response none = err internal
wait_for_response (some response) = response

unfoldable pub assign_code : CodeConfig → UdfClient
assign_code config = record {
  handler_name = config.udf_handler_name;
  logical_commit_time = config.logical_commit_time;
  version = config.version;
}

module _ {R : Type 0} (roma : Roma R) where
  unfoldable pub execute_code : UdfClient → R → List String → StatusOr String
  unfolding build_invocation_request wait_for_response
  execute_code client r keys = do
    response ← roma.execute r (build_invocation_request client keys)
    wait_for_response response

  unfoldable pub after_load :
      CodeConfig → UdfClient → R × StatusOr (Unit {0}) → (UdfClient × R) × StatusOr (Unit {0})
  unfolding assign_code
  after_load config client (r, err e) = ((client, r), err e)
  after_load config client (r, ok _) = ((assign_code config, r), ok tt)

  unfoldable pub load : R × StatusOr (Option (StatusOr (Unit {0}))) → R × StatusOr (Unit {0})
  unfolding wait_for_response
  load (r, status) = (r, status >>= wait_for_response)

  unfoldable pub set_code_object :
      UdfClient × R → CodeConfig → (UdfClient × R) × StatusOr (Unit {0})
  unfolding after_load load build_code_object
  set_code_object (client, r) config =
      if leb config.logical_commit_time client.logical_commit_time
      then ((client, r), ok tt)
      else after_load config client (load (roma.load_code_obj r (build_code_object config)))

  unfoldable pub set_wasm_code_object :
      UdfClient × R → CodeConfig → (UdfClient × R) × StatusOr (Unit {0})
  unfolding set_code_object
  set_wasm_code_object state config = set_code_object state config
