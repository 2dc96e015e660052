-- ===== src/Cache/State.antt =====
-- The state of components/data_server/cache/key_value_cache.h.
-- A logical commit time is an int64_t. It is only compared and copied, so it is kept as the native
-- number t + 2^63, which has the same order; `zero_time` stands for 0.
use fledge_key_value_service.Base.{ℕ, ◌^◌, String, Bool, false, Option, List, []}
use fledge_key_value_service.Base.Maps.{Map}

abbrev pub zero_time : ℕ
zero_time = 2 ^ 63

-- `none` is the null pointer of a deleted key.
pub record CacheValue : Type 0 where
  pub value : Option String
  pub last_logical_commit_time : ℕ

pub record SetValueMeta : Type 0 where
  pub last_logical_commit_time : ℕ
  pub is_deleted : Bool

-- SetValueMeta(), which operator[] of the inner map inserts for a new value.
abbrev pub default_meta : SetValueMeta
default_meta = record { last_logical_commit_time = zero_time; is_deleted = false }

-- The multimap and the btree_map are lists in the order of their iteration.
pub record KeyValueCache : Type 0 where
  pub map : Map CacheValue
  pub deleted_nodes : List (ℕ × String)
  pub max_cleanup_logical_commit_time : ℕ
  pub max_cleanup_logical_commit_time_for_set_cache : ℕ
  pub key_to_value_set_map : Map (Map SetValueMeta)
  pub deleted_set_nodes : List (ℕ × Map (List String))

-- KeyValueCache::Create
abbrev pub create : KeyValueCache
create = record {
  map = [];
  deleted_nodes = [];
  max_cleanup_logical_commit_time = zero_time;
  max_cleanup_logical_commit_time_for_set_cache = zero_time;
  key_to_value_set_map = [];
  deleted_set_nodes = [];
}
