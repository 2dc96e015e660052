-- ===== src/Loading/Records.antt =====
-- The records of public/data_loading/data_loading.fbs and their effect on the cache
-- (components/data_server/data_loading/data_orchestrator.cc). Arguments are the hash function of the
-- sharding function, and the user defined functions' client, with its state and its SetCodeObject.
-- A number of shards that is negative is treated as 0 is.
pub mod Calls
use fledge_key_value_service.Base.{
  ℕ, suc, ◌+◌, max, String, Bool, true, false, List, [], ◌∷◌, leb, eqb, if◌then◌else◌,
}
use fledge_key_value_service.Cache.State.{KeyValueCache, zero_time}
use fledge_key_value_service.Cache.KeyValue.{update_key_value, delete_key}
use fledge_key_value_service.Cache.Sets.{update_key_value_set, delete_values_in_set}
use fledge_key_value_service.Lookup.Types.{StatusOr, ok, err, invalid_argument}

-- The union Value; `unsupported` is any other type.
pub data Value : Type 0 where
  string : String → Value
  string_set : List String → Value
  unsupported : Value

-- `unknown` is a number that is not in the enumeration.
pub data MutationType : Type 0 where
  update delete unknown : MutationType

pub record KeyValueMutationRecord : Type 0 where
  pub mutation_type : MutationType
  pub logical_commit_time : ℕ
  pub key : String
  pub value : Value

pub record CodeConfig : Type 0 where
  pub js : String
  pub udf_handler_name : String
  pub logical_commit_time : ℕ
  pub version : ℕ

-- The union Record; `other` is a record of any other type.
pub data DataRecord : Type 0 where
  key_value_mutation : KeyValueMutationRecord → DataRecord
  user_defined_functions : CodeConfig → DataRecord
  other : DataRecord

unfoldable pub apply_update_mutation :
    KeyValueMutationRecord → KeyValueCache → StatusOr KeyValueCache
apply_update_mutation record_ c = elim record_.value [
  | string v ↦ ok (update_key_value c record_.key v record_.logical_commit_time)
  | string_set vs ↦ ok (update_key_value_set c record_.key vs record_.logical_commit_time)
  | unsupported ↦ err invalid_argument
]

unfoldable pub apply_delete_mutation :
    KeyValueMutationRecord → KeyValueCache → StatusOr KeyValueCache
apply_delete_mutation record_ c = elim record_.value [
  | string v ↦ ok (delete_key c record_.key record_.logical_commit_time)
  | string_set vs ↦ ok (delete_values_in_set c record_.key vs record_.logical_commit_time)
  | unsupported ↦ err invalid_argument
]

-- What the loading of a stream changes: the cache, the greatest commit time, the statistics, and the
-- state of the user defined functions.
pub record Progress {ℓ} (U : Type ℓ) : Type ℓ where
  pub cache : KeyValueCache
  pub max_timestamp : ℕ
  pub total_updated_records : ℕ
  pub total_deleted_records : ℕ
  pub udf : U

-- The options that the loading reads.
pub record Options {ℓ} (U : Type ℓ) : Type ℓ where
  pub hash_function : String → ℕ → ℕ
  pub num_shards : ℕ
  pub shard_num : ℕ
  pub set_code_object : U → CodeConfig → U × StatusOr (Unit {0})

module _ {ℓ} {U : Type ℓ} (options : Options U) where
  unfoldable pub should_process_record : KeyValueMutationRecord → Bool
  should_process_record record_ =
      if leb options.num_shards 1
      then true
      else eqb (options.hash_function record_.key options.num_shards) options.shard_num

  -- The Update case after the mutation, and the Delete case.
  unfoldable pub count_update :
      ℕ → StatusOr KeyValueCache → Progress U → Progress U × StatusOr (Unit {0})
  count_update time (err e) p = (p, err e)
  count_update time (ok c) p = (
    record p {
      cache = c;
      max_timestamp = max p.max_timestamp time;
      total_updated_records = suc p.total_updated_records;
    },
    ok tt,
  )

  unfoldable pub count_delete :
      ℕ → StatusOr KeyValueCache → Progress U → Progress U × StatusOr (Unit {0})
  count_delete time (err e) p = (p, err e)
  count_delete time (ok c) p = (
    record p {
      cache = c;
      max_timestamp = max p.max_timestamp time;
      total_deleted_records = suc p.total_deleted_records;
    },
    ok tt,
  )

  unfoldable pub apply_key_value_mutation_to_cache :
      KeyValueMutationRecord → Progress U → Progress U × StatusOr (Unit {0})
  unfolding apply_update_mutation apply_delete_mutation count_update count_delete
  apply_key_value_mutation_to_cache record_ p = elim record_.mutation_type [
    | update ↦ count_update record_.logical_commit_time (apply_update_mutation record_ p.cache) p
    | delete ↦ count_delete record_.logical_commit_time (apply_delete_mutation record_ p.cache) p
    | unknown ↦ (p, err invalid_argument)
  ]

  unfoldable pub set_code : CodeConfig → Progress U → Progress U × StatusOr (Unit {0})
  set_code config p =
      let (udf, status) = options.set_code_object p.udf config in (record p { udf = udf }, status)

  -- process_data_record_fn
  unfoldable pub process_data_record : DataRecord → Progress U → Progress U × StatusOr (Unit {0})
  unfolding should_process_record apply_key_value_mutation_to_cache set_code
  process_data_record (key_value_mutation record_) p =
      if should_process_record record_
      then apply_key_value_mutation_to_cache record_ p
      else (p, ok tt)
  process_data_record (user_defined_functions config) p = set_code config p
  process_data_record other p = (p, err invalid_argument)

  -- DeserializeDataRecord with that function: a record that is not valid is not processed.
  unfoldable pub deserialize_data_record :
      StatusOr DataRecord → Progress U → Progress U × StatusOr (Unit {0})
  unfolding process_data_record
  deserialize_data_record (err e) p = (p, err e)
  deserialize_data_record (ok record_) p = process_data_record record_ p

  -- ReadStreamRecords calls the function for every record; a status that is not OK is only logged.
  unfoldable pub read_stream_records : List (StatusOr DataRecord) → Progress U → Progress U
  unfolding deserialize_data_record
  read_stream_records [] p = p
  read_stream_records (record_ ∷ rest) p =
      read_stream_records rest (deserialize_data_record record_ p).0
