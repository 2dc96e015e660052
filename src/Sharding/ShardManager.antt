-- ===== src/Sharding/ShardManager.antt =====
-- components/sharding/shard_manager.cc. The client factory and the random generator are arguments; a
-- call of the generator is a function of the upper bound. The mutex makes each method one step.
pub mod Clients
use fledge_key_value_service.Base.{
  ℕ, String, Bool, true, false, not, Option, none, some, List, [], ◌∷◌, ltb, eqb, if◌then◌else◌,
}
use fledge_key_value_service.Base.Ints.{ℤ, pos, negsuc}
use fledge_key_value_service.Base.Lists.{length, get_elem?}
use fledge_key_value_service.Base.Maps.{Map, find, emplace}
use fledge_key_value_service.Cache.Sets.{is_empty}
use fledge_key_value_service.Lookup.Types.{StatusOr, ok, err, invalid_argument, ◌>>=◌}

-- ShardManagerImpl with clients of the type C.
pub record ShardManager {ℓ} (C : Type ℓ) : Type ℓ where
  pub num_shards : ℕ
  pub cluster_mappings : List (List String)
  pub remote_lookup_clients : Map C

unfoldable pub has_empty_set : List (List String) → Bool
unfolding is_empty
has_empty_set [] = false
has_empty_set (set ∷ rest) = if is_empty set then true else has_empty_set rest

unfoldable pub validate_mapping : ℤ → List (List String) → StatusOr (Unit {0})
unfolding has_empty_set
validate_mapping (negsuc n) cluster_mappings = err invalid_argument
validate_mapping (pos n) cluster_mappings =
    if ltb n 2
    then err invalid_argument
    else if not (eqb n (length cluster_mappings))
    then err invalid_argument
    else if has_empty_set cluster_mappings
    then err invalid_argument
    else ok tt

module _ {ℓ} {C : Type ℓ} where
  module _ (client_factory : String → C) where
    -- The loops of InsertBatch: an address that has a client keeps it.
    unfoldable pub insert_client : String → Option C → Map C → Map C
    insert_client ip (some c) clients = clients
    insert_client ip none clients = emplace ip (client_factory ip) clients

    unfoldable pub insert_clients : List String → Map C → Map C
    unfolding insert_client
    insert_clients [] clients = clients
    insert_clients (ip ∷ rest) clients =
        insert_clients rest (insert_client ip (find ip clients) clients)

    unfoldable pub insert_shards : List (List String) → Map C → Map C
    unfolding insert_clients
    insert_shards [] clients = clients
    insert_shards (ips ∷ rest) clients = insert_shards rest (insert_clients ips clients)

    unfoldable pub insert_batch : ShardManager C → List (List String) → ShardManager C
    unfolding insert_shards
    insert_batch m cluster_mappings =
        if not (eqb (length cluster_mappings) m.num_shards) then m else record m {
          cluster_mappings = cluster_mappings;
          remote_lookup_clients = insert_shards cluster_mappings m.remote_lookup_clients;
        }

    -- ShardManager::Create
    unfoldable pub create : ℤ → List (List String) → StatusOr (ShardManager C)
    unfolding validate_mapping insert_batch
    create num_shards cluster_mappings = do
      _ ← validate_mapping num_shards cluster_mappings
      ok (
          insert_batch
            (record {
              num_shards = length cluster_mappings;
              cluster_mappings = [];
              remote_lookup_clients = [];
            })
            cluster_mappings)

  -- The replica that the generator picks, and its client.
  unfoldable pub client_of : Map C → Option String → Option C
  client_of clients none = none
  client_of clients (some ip_address) = find ip_address clients

  unfoldable pub pick : (ℕ → ℕ) → Map C → Option (List String) → Option C
  unfolding client_of is_empty
  pick random clients none = none
  pick random clients (some shard_replicas) =
      if is_empty shard_replicas
      then none
      else client_of clients (get_elem? shard_replicas (random (length shard_replicas)))

  -- ShardManager::Get; `none` is the null pointer.
  unfoldable pub get : ShardManager C → (ℕ → ℕ) → ℤ → Option C
  unfolding pick
  get m random (negsuc n) = none
  get m random (pos shard_num) =
      if not (ltb shard_num m.num_shards)
      then none
      else if not (eqb (length m.cluster_mappings) m.num_shards)
      then none
      else pick random m.remote_lookup_clients (get_elem? m.cluster_mappings shard_num)
