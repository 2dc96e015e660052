-- ===== src/Cache/Run.antt =====
-- The mutating calls of the interface Cache (components/data_server/cache/cache.h), and sequences of
-- them as the data loading threads make them.
pub mod Registers
pub mod Stale
pub mod Members
pub mod Converge
pub mod Tombstones
use fledge_key_value_service.Base.{ℕ, String, List, [], ◌∷◌}
use fledge_key_value_service.Cache.State.{KeyValueCache}
use fledge_key_value_service.Cache.KeyValue.{update_key_value, delete_key, clean_up_key_value_map}
use fledge_key_value_service.Cache.Sets.{
  update_key_value_set, delete_values_in_set, clean_up_key_value_set_map,
}

unfoldable pub remove_deleted_keys : KeyValueCache → ℕ → KeyValueCache
remove_deleted_keys c time = clean_up_key_value_set_map (clean_up_key_value_map c time) time

pub data Call : Type 0 where
  update : String → String → ℕ → Call
  update_set : String → List String → ℕ → Call
  delete : String → ℕ → Call
  delete_values : String → List String → ℕ → Call
  remove_deleted : ℕ → Call

unfoldable pub step : KeyValueCache → Call → KeyValueCache
step c (update key value time) = update_key_value c key value time
step c (update_set key values time) = update_key_value_set c key values time
step c (delete key time) = delete_key c key time
step c (delete_values key values time) = delete_values_in_set c key values time
step c (remove_deleted time) = remove_deleted_keys c time

unfoldable pub run : KeyValueCache → List Call → KeyValueCache
run c [] = c
run c (call ∷ calls) = run (step c call) calls
