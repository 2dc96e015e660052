-- ===== src/Sharding/ClusterMappings.antt =====
-- components/sharding/cluster_mappings_manager.cc: which addresses belong to which shard. The answer of the
-- cloud's DescribeInstances, once it has been retried until it is OK, is an argument.
pub mod Addresses
pub mod Replicas
use fledge_key_value_service.Base.{
  ℕ, zero, suc, String, Bool, true, false, Option, none, some, List, [], ◌∷◌, ltb, if◌then◌else◌,
  ◌==◌,
}
use fledge_key_value_service.Base.Lists.{replicate}
use fledge_key_value_service.Base.Maps.{Map, find, emplace, set_insert}
use fledge_key_value_service.Lookup.Types.{StatusOr, ok, err}
use fledge_key_value_service.Sharding.AsgName.{get_shard_number_off_asg_name}

pub data InstanceServiceStatus : Type 0 where
  unknown pre_service in_service post_service : InstanceServiceStatus

pub record InstanceInfo : Type 0 where
  pub id : String
  pub service_status : InstanceServiceStatus
  pub instance_group : String
  pub private_ip_address : String

abbrev pub is_in_service : InstanceServiceStatus → Bool
is_in_service in_service = true
is_in_service _ = false

-- The ids that GetInstaceIdToIpMapping asks for.
unfoldable pub instance_ids : List InstanceInfo → List String → List String
instance_ids [] ids = ids
instance_ids (x ∷ rest) ids =
    instance_ids rest (if is_in_service x.service_status then set_insert x.id ids else ids)

unfoldable pub collect_ips : List InstanceInfo → Map String → Map String
collect_ips [] mapping = mapping
collect_ips (x ∷ rest) mapping = collect_ips rest (emplace x.id x.private_ip_address mapping)

unfoldable pub get_instance_id_to_ip_mapping :
    (List String → List InstanceInfo) → List InstanceInfo → Map String
unfolding instance_ids collect_ips
get_instance_id_to_ip_mapping describe instances =
    collect_ips (describe (instance_ids instances [])) []

-- cluster_mappings[shard_num].insert(ip), with an index inside the vector.
unfoldable pub insert_ip : ℕ → String → List (List String) → List (List String)
insert_ip i ip [] = []
insert_ip zero ip (s ∷ rest) = set_insert ip s ∷ rest
insert_ip (suc i) ip (s ∷ rest) = s ∷ insert_ip i ip rest

-- The address of an instance that is in service and has one.
unfoldable pub ip_of : Option String → Option String
ip_of none = none
ip_of (some ip) = if ip == "" then none else some ip

unfoldable pub add_replica :
    ℕ → StatusOr ℕ → Option String → List (List String) → List (List String)
unfolding insert_ip
add_replica num_shards (err e) ip cluster_mappings = cluster_mappings
add_replica num_shards (ok shard_num) none cluster_mappings = cluster_mappings
add_replica num_shards (ok shard_num) (some ip) cluster_mappings =
    if ltb shard_num num_shards then insert_ip shard_num ip cluster_mappings else cluster_mappings

module _ (environment : String) (num_shards : ℕ) (id_to_ip : Map String) where
  -- The loop of GroupInstancesToClusterMappings.
  unfoldable pub group_instances : List InstanceInfo → List (List String) → List (List String)
  unfolding add_replica ip_of
  group_instances [] cluster_mappings = cluster_mappings
  group_instances (x ∷ rest) cluster_mappings = group_instances rest (
      if is_in_service x.service_status
      then add_replica num_shards (get_shard_number_off_asg_name environment x.instance_group)
          (ip_of (find x.id id_to_ip)) cluster_mappings
      else cluster_mappings)

unfoldable pub group_instances_to_cluster_mappings :
    String → ℕ → (List String → List InstanceInfo) → List InstanceInfo → List (List String)
unfolding group_instances get_instance_id_to_ip_mapping
group_instances_to_cluster_mappings environment num_shards describe instances =
    group_instances environment num_shards (get_instance_id_to_ip_mapping describe instances)
      instances (replicate num_shards [])
