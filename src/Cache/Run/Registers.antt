-- ===== src/Cache/Run/Registers.antt =====
-- What each mutating call of the cache does to the entry of a key, and to the cutoff.
use fledge_key_value_service.Base.{ℕ, max, String, ◌≡◌, refl, List, arith}
use fledge_key_value_service.Cache.State.{KeyValueCache}
use fledge_key_value_service.Cache.KeyValue.{clean_up_key_value_map, update_key_value, delete_key}
use fledge_key_value_service.Cache.KeyValue.Entries.{entry, Cleaned, Cleaned-clean_up}
use fledge_key_value_service.Cache.Sets.{
  update_key_value_set, delete_values_in_set, clean_up_key_value_set_map,
}
use fledge_key_value_service.Cache.Run.{remove_deleted_keys}

abbrev pub cutoff : KeyValueCache → ℕ
cutoff c = c.max_cleanup_logical_commit_time

module _ (c : KeyValueCache) (k : String) where
  pub cutoff-update : (v : String) (t : ℕ) → cutoff (update_key_value c k v t) ≡ cutoff c
  unfolding update_key_value
  cutoff-update v t = ground arith

  pub cutoff-delete : (t : ℕ) → cutoff (delete_key c k t) ≡ cutoff c
  unfolding delete_key
  cutoff-delete t = ground arith

  pub map-update_set : (vs : List String) (t : ℕ) → (update_key_value_set c k vs t).map ≡ c.map
  unfolding update_key_value_set
  map-update_set vs t = ground arith

  pub cutoff-update_set :
      (vs : List String) (t : ℕ) → cutoff (update_key_value_set c k vs t) ≡ cutoff c
  unfolding update_key_value_set
  cutoff-update_set vs t = ground arith

  pub map-delete_values : (vs : List String) (t : ℕ) → (delete_values_in_set c k vs t).map ≡ c.map
  unfolding delete_values_in_set
  map-delete_values vs t = ground arith

  pub cutoff-delete_values :
      (vs : List String) (t : ℕ) → cutoff (delete_values_in_set c k vs t) ≡ cutoff c
  unfolding delete_values_in_set
  cutoff-delete_values vs t = ground arith

module _ (c : KeyValueCache) (t : ℕ) where
  pub cutoff-remove_deleted : cutoff (remove_deleted_keys c t) ≡ max (cutoff c) t
  unfolding remove_deleted_keys clean_up_key_value_map clean_up_key_value_set_map
  cutoff-remove_deleted = refl

  pub Cleaned-remove_deleted :
      (k : String) → Cleaned t (entry c k) (entry (remove_deleted_keys c t) k)
  unfolding remove_deleted_keys clean_up_key_value_set_map
  Cleaned-remove_deleted k = Cleaned-clean_up c t k
