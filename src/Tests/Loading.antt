-- ===== src/Tests/Loading.antt =====
-- The loading of data_orchestrator.cc on a bucket with two delta files, for the first shard of two.
use mathlib.Core.List.{reverse}
use fledge_key_value_service.Base.{
  ◌++◌, ℕ, ◌+◌, String, ◌≡◌, refl, true, false, none, some, List, [], ◌∷◌, ◌==◌, if◌then◌else◌,
}
use fledge_key_value_service.Base.Maps.{find, insert_or_assign, erase}
use fledge_key_value_service.Cache.State.{create, zero_time}
use fledge_key_value_service.Cache.KeyValue.{
  update_key_value, delete_key, clean_up_key_value_map, clean_up_nodes, add_node, is_older, assign,
  drop_deleted_node, erase_deleted,
}
use fledge_key_value_service.Cache.KeyValue.Lookup.{visible}
use fledge_key_value_service.Cache.Sets.{clean_up_key_value_set_map, clean_up_set_nodes}
use fledge_key_value_service.Cache.Run.{run, remove_deleted_keys}
use fledge_key_value_service.Lookup.Types.{StatusOr, ok, err, invalid_argument}
use fledge_key_value_service.Loading.Records.{
  string, update, delete, MutationType, DataRecord, key_value_mutation, other, Progress, Options,
  read_stream_records, should_process_record, apply_key_value_mutation_to_cache,
  apply_update_mutation, apply_delete_mutation, count_update, count_delete, process_data_record,
  deserialize_data_record, Value,
}
use fledge_key_value_service.Loading.Records.Calls.{IsAfter, calls_of, read_stream_records_lem}
use fledge_key_value_service.Loading.Filenames.{is_delta_filename, matches, are_digits}
use fledge_key_value_service.Loading.Files.{
  Blob, Bucket, Server, load_cache_with_data_from_file, load_blob, load_cache_with_data, clean_up,
  stats_of, is_foreign, load_deltas,
}
use fledge_key_value_service.Loading.Files.{
  init, after_load, load_snapshots, load_snapshot_files, load_listed_snapshots, load_listed_deltas,
  load_delta_files,
}
use fledge_key_value_service.Loading.Filenames.{is_snapshot_filename}
use fledge_key_value_service.Loading.Files.Start.{snapshot_calls, snapshot_end, init_lem}
use fledge_key_value_service.Loading.Files.Loads.{
  file_calls, file_status, delta_calls, last_delta, load_file_lem,
}

-- The client of the user defined functions counts what it is given.
abbrev pub options : Options ℕ
options = record {
  hash_function = λ k n. if k == "b" then 1 else 0;
  num_shards = 2;
  shard_num = 0;
  set_code_object = λ u config. (u + 1, ok tt);
}

abbrev mutation : MutationType → String → Value → ℕ → StatusOr DataRecord
mutation ty key value time = ok (
    key_value_mutation (record {
      mutation_type = ty;
      logical_commit_time = zero_time + time;
      key = key;
      value = value;
    }))

-- A record that cannot be read, and one of the other shard, stand between the others.
abbrev first_records : List (StatusOr DataRecord)
first_records =
    mutation update "a" (string "1") 1
    ∷ err invalid_argument
    ∷ mutation update "b" (string "2") 2
    ∷ mutation update "c" (string "3") 3
    ∷ ok other
    ∷ []

abbrev pub second_records : List (StatusOr DataRecord)
second_records = mutation delete "a" (string "") 4 ∷ mutation update "c" (string "4") 2 ∷ []

abbrev pub delta : List (StatusOr DataRecord) → Blob
delta records = record {
  metadata = ok (record { shard_num = none; ending_delta_file = "" });
  records = records;
  read_status = ok tt;
}

abbrev pub bucket : Bucket
bucket = record {
  list_snapshots = ok [];
  list_deltas = λ after. ok ("DELTA_0000000000000001" ∷ "DELTA_1" ∷ "DELTA_0000000000000002" ∷ []);
  blob = λ name. delta (if name == "DELTA_0000000000000001" then first_records else second_records);
}

abbrev pub names : List String
names = "DELTA_0000000000000001" ∷ "DELTA_1" ∷ "DELTA_0000000000000002" ∷ []

abbrev pub server : Server ℕ
server = record { cache = create; udf = 0 }

unfoldable pub program : Unit {0}
unfolding init after_load load_snapshots load_snapshot_files load_listed_snapshots
    load_listed_deltas load_delta_files is_snapshot_filename find insert_or_assign erase
    update_key_value delete_key clean_up_key_value_map clean_up_nodes add_node is_older assign
    drop_deleted_node erase_deleted clean_up_key_value_set_map clean_up_set_nodes
    remove_deleted_keys read_stream_records should_process_record apply_key_value_mutation_to_cache
    apply_update_mutation apply_delete_mutation count_update count_delete process_data_record
    deserialize_data_record is_delta_filename matches are_digits load_cache_with_data_from_file
    load_blob load_cache_with_data clean_up stats_of is_foreign load_deltas
program = tt

filenames :
    (is_delta_filename "DELTA_1659978505000000" ≡ true)
    × (is_delta_filename "DELTA_165997850500000" ≡ false)
    × (is_delta_filename "DELTA_16599785050000000" ≡ false)
    × (is_delta_filename "SNAPSHOT_1659978505000000" ≡ false)
unfolding program
filenames = (refl, refl, refl, refl)

pub loaded_name : (load_deltas options bucket names "" server).1 ≡ ok "DELTA_0000000000000002"
unfolding program
loaded_name = refl

-- The second file deletes "a"; its update of "c" is older than the cleanup of the first.
loaded_values :
    (visible (load_deltas options bucket names "" server).0.cache "a" ≡ none)
    × (visible (load_deltas options bucket names "" server).0.cache "b" ≡ none)
    × (visible (load_deltas options bucket names "" server).0.cache "c" ≡ some "3")
unfolding program
loaded_values = (refl, refl, refl)

abbrev started : Progress ℕ
started = record {
  cache = create;
  max_timestamp = zero_time;
  total_updated_records = 0;
  total_deleted_records = 0;
  udf = 0;
}

read_stream_records_lem_example :
    IsAfter options started
      (calls_of options first_records)
      (read_stream_records options first_records started)
read_stream_records_lem_example = read_stream_records_lem options first_records started

load_file_lem_example :
    ((load_cache_with_data_from_file options bucket "DELTA_0000000000000001" server).0.cache
      ≡ run create (file_calls options (delta first_records) (delta first_records).metadata))
    × ((load_cache_with_data_from_file options bucket "DELTA_0000000000000001" server).1
        ≡ file_status options (delta first_records) (delta first_records).metadata)
load_file_lem_example = load_file_lem options bucket "DELTA_0000000000000001" server

-- A bucket with an older snapshot, and a newer one of the other shard.
abbrev full_bucket : Bucket
full_bucket = record {
  list_snapshots = ok ("SNAPSHOT_0000000000000001" ∷ "SNAPSHOT_0000000000000002" ∷ []);
  list_deltas = λ after.
      if after == "DELTA_0000000000000001" then ok ("DELTA_0000000000000002" ∷ []) else ok names;
  blob = λ name.
      if name == "SNAPSHOT_0000000000000001"
      then record {
        metadata = ok (record { shard_num = some 0; ending_delta_file = "DELTA_0000000000000001" });
        records = first_records;
        read_status = ok tt;
      }
      else if name == "SNAPSHOT_0000000000000002"
      then record {
        metadata = ok (record { shard_num = some 1; ending_delta_file = "DELTA_0000000000000002" });
        records = [];
        read_status = ok tt;
      }
      else delta second_records;
}

initial_name : (init options full_bucket server).1 ≡ ok "DELTA_0000000000000002"
unfolding program
initial_name = refl

init_lem_example :
    (snapshots : List String) × (files : List String) × (full_bucket.list_snapshots ≡ ok snapshots)
    × (full_bucket.list_deltas (snapshot_end options full_bucket (reverse snapshots)) ≡ ok files)
    × ((init options full_bucket server).0.cache
        ≡ run create (
            snapshot_calls options full_bucket (reverse snapshots)
            ++ delta_calls options full_bucket files))
    × ("DELTA_0000000000000002"
        ≡ last_delta options (snapshot_end options full_bucket (reverse snapshots)) files)
init_lem_example = init_lem options full_bucket server "DELTA_0000000000000002" initial_name
