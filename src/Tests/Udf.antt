-- ===== src/Tests/Udf.antt =====
-- The client of the user defined functions, with an engine that keeps the code that it was given.
use fledge_key_value_service.Base.{
  ℕ, ◌+◌, ◌≡◌, refl, String, none, some, List, [], ◌∷◌, ◌==◌, if◌then◌else◌,
}
use fledge_key_value_service.Cache.State.{create, zero_time}
use fledge_key_value_service.Lookup.Types.{StatusOr, ok, err, invalid_argument, internal}
use fledge_key_value_service.Loading.Records.{
  CodeConfig, DataRecord, user_defined_functions, other, Progress, read_stream_records,
  deserialize_data_record, process_data_record, set_code,
}
use fledge_key_value_service.Udf.{
  UdfClient, initial, Roma, build_code_object, build_invocation_request, wait_for_response,
  assign_code, execute_code, after_load, load, set_code_object,
}
use fledge_key_value_service.Udf.Newest.{
  IsNewest, configs_of, with_udf, read_stream_records-IsNewest,
}

-- Code that is empty cannot be loaded in time; a handler gives its name.
abbrev slow_roma : Roma (List String)
slow_roma = record {
  load_code_obj =
      λ r code. if code.js == "" then (r, ok none) else (code.js ∷ r, ok (some (ok tt)));
  execute = λ r request. ok (some (ok request.handler_name));
}

abbrev roma : Roma (List String)
roma = record {
  load_code_obj = λ r code. (code.js ∷ r, ok (some (ok tt)));
  execute = λ r request. ok (some (ok request.handler_name));
}

abbrev config : String → String → ℕ → CodeConfig
config js name time = record {
  js = js;
  udf_handler_name = name;
  logical_commit_time = zero_time + time;
  version = 1;
}

udf_program : Unit {0}
unfolding build_code_object build_invocation_request wait_for_response assign_code execute_code
    after_load load set_code_object read_stream_records deserialize_data_record process_data_record
    set_code with_udf
udf_program = tt

timed_out :
    set_code_object slow_roma (initial, []) (config "" "Handle" 3) ≡ ((initial, []), err internal)
unfolding udf_program
timed_out = refl

hash : String → ℕ → ℕ
hash key n = 0

-- The second function is older than the first.
abbrev records : List (StatusOr DataRecord)
records =
    ok (user_defined_functions (config "new" "New" 5))
    ∷ err invalid_argument
    ∷ ok (user_defined_functions (config "old" "Old" 3))
    ∷ ok other
    ∷ []

abbrev start : Progress (UdfClient × List String)
start = record {
  cache = create;
  max_timestamp = zero_time;
  total_updated_records = 0;
  total_deleted_records = 0;
  udf = (initial, []);
}

newest_runs :
    (read_stream_records (with_udf roma hash 1 0) records start).udf
    ≡ (assign_code (config "new" "New" 5), "new" ∷ [])
unfolding udf_program
newest_runs = refl

read_stream_records-IsNewest_example :
    IsNewest roma initial
      (configs_of records)
      (read_stream_records (with_udf roma hash 1 0) records start).udf.0
read_stream_records-IsNewest_example =
    read_stream_records-IsNewest roma hash 1 0 records start (λ r code. refl)
