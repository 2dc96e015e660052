-- ===== src/Sharding/Lookups.antt =====
-- components/internal_server/sharded_lookup.cc over the clients of components/sharding/shard_manager.cc.
use fledge_key_value_service.Base.{ℕ, ◌<◌, String, ◌≡◌, refl, ◌∙◌, List, [], ◌∷◌, arith}
use fledge_key_value_service.Base.Ints.{ℤ, pos}
use fledge_key_value_service.Base.Lists.{length}
use fledge_key_value_service.Cache.Sets.{is_empty}
use fledge_key_value_service.Lookup.Types.{ok, InternalLookupResponse}
use fledge_key_value_service.Lookup.Sharded.{
  ShardedLookup, Client, get_key_values, process_sharded_keys, to_set,
}
use fledge_key_value_service.Lookup.Sharded.Buckets.{owner_of}
use fledge_key_value_service.Lookup.Sharded.Values.{AreReachable, get_key_values_lem}
use fledge_key_value_service.Sharding.ShardManager.{ShardManager, create, get}
use fledge_key_value_service.Sharding.ShardManager.Clients.{IsInRange, create-get}

module _ (client_factory : String → Client) (n : ℤ) (ms : List (List String))
    (m : ShardManager Client) (made : create client_factory n ms ≡ ok m) (random : ℕ → ℕ → ℕ)
    (range : (i : ℕ) → IsInRange (random i)) (s : ShardedLookup) (size : s.num_shards ≡ length ms)
    (managed : (i : ℕ) → s.client i ≡ get m (random i) (pos i)) where
  create-AreReachable : AreReachable s
  create-AreReachable i lt other =
      let (two, (ips, ip, at, listed, found)) =
        create-get client_factory n ms m (random i) i made (range i) (omega arith) in
      (client_factory ip, managed i ∙ found)

  -- Where the clients come from a shard manager that Create has accepted for as many shards, and every
  -- key hashes to a shard, the lookup of any list of keys succeeds: no client is missing.
  pub get_key_values_total :
      (keys : List String)
      → ((k : String) → owner_of s k < s.num_shards)
      → (r : InternalLookupResponse) × (get_key_values s keys ≡ ok r)
  unfolding get_key_values process_sharded_keys to_set is_empty
  get_key_values_total [] owned = ([], refl)
  get_key_values_total (k ∷ ks) owned =
      let (r, e, answered) = get_key_values_lem s create-AreReachable k ks k (owned k) in (r, e)
