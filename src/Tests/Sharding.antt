-- ===== src/Tests/Sharding.antt =====
-- The shard manager of components/sharding on two shards.
use fledge_key_value_service.Base.{
  ◌≤◌, ◌<◌, String, ◌≡◌, refl, true, none, some, List, [], ◌∷◌, arith, ◌==◌, if◌then◌else◌,
}
use fledge_key_value_service.Base.Ints.{pos, negsuc}
use fledge_key_value_service.Base.Lists.{length, get_elem?}
use fledge_key_value_service.Base.Maps.{contains, find, emplace}
use fledge_key_value_service.Cache.Sets.{is_empty}
use fledge_key_value_service.Lookup.Types.{ok, err, invalid_argument, value, InternalLookupResponse}
use fledge_key_value_service.Lookup.Sharded.{ShardedLookup, Client, get_key_values}
use fledge_key_value_service.Sharding.ShardManager.{
  ShardManager, has_empty_set, validate_mapping, insert_client, insert_clients, insert_shards,
  insert_batch, create, get,
}
use fledge_key_value_service.Sharding.ShardManager.Clients.{IsInRange, create-get}
use fledge_key_value_service.Sharding.Lookups.{get_key_values_total}
use fledge_key_value_service.Tests.Lookup.{sharded}

abbrev factory : String → Client
factory ip = λ request padding. ok (("b", value ip) ∷ [])

abbrev mappings : List (List String)
mappings = ("10.0.0.1" ∷ []) ∷ ("10.0.1.1" ∷ "10.0.1.2" ∷ []) ∷ []

abbrev manager : ShardManager Client
manager = record {
  num_shards = 2;
  cluster_mappings = mappings;
  remote_lookup_clients =
      ("10.0.0.1", factory "10.0.0.1")
      ∷ ("10.0.1.1", factory "10.0.1.1")
      ∷ ("10.0.1.2", factory "10.0.1.2")
      ∷ [];
}

created : create factory (pos 2) mappings ≡ ok manager
unfolding create validate_mapping has_empty_set is_empty insert_batch insert_shards insert_clients
    insert_client find emplace
created = refl

refused : create factory (pos 3) mappings ≡ err invalid_argument
unfolding create validate_mapping
refused = refl

refused_negative : create factory (negsuc 0) mappings ≡ err invalid_argument
unfolding create validate_mapping
refused_negative = refl

out_of_range : get manager (λ n. 0) (negsuc 0) ≡ none
unfolding get
out_of_range = refl

first_replica : IsInRange (λ n. 0)
first_replica n lt = lt

create-get_example :
    (2 ≤ length mappings)
    × ((ips : List String) × (ip : String) × (get_elem? mappings 1 ≡ some ips)
        × (contains ip ips ≡ true)
        × (get manager (λ n. 0) (pos 1) ≡ some (factory ip)))
create-get_example =
    create-get factory (pos 2) mappings manager (λ n. 0) 1 created first_replica (omega arith)

abbrev fresh : ShardManager Client
fresh = record { num_shards = 2; cluster_mappings = []; remote_lookup_clients = [] }

abbrev managed : ShardedLookup
managed = record sharded { client = λ i. get manager (λ n. 0) (pos i) }

managed-owned : (k : String) → (if k == "b" then 1 else 0) < 2
managed-owned k = ground arith

get_key_values_total_example :
    (r : InternalLookupResponse) × (get_key_values managed ("a" ∷ "b" ∷ []) ≡ ok r)
get_key_values_total_example =
    get_key_values_total factory (pos 2) mappings manager created (λ i n. 0) (λ i. first_replica)
      managed refl (λ i. refl) ("a" ∷ "b" ∷ []) managed-owned
