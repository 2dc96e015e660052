-- ===== src/Tests/Mappings.antt =====
-- The grouping of three instances, one of which is not in service.
use fledge_key_value_service.Base.{String, ◌≡◌, refl, ◌↔◌, true, List, [], ◌∷◌, arith}
use fledge_key_value_service.Base.Lists.{length}
use fledge_key_value_service.Base.Maps.{contains, find, emplace, set_insert}
use fledge_key_value_service.Lookup.Types.{ok, err, invalid_argument}
use fledge_key_value_service.Sharding.AsgName.{
  get_shard_number_off_asg_name, match_asg, strip, number_before,
}
use fledge_key_value_service.Sharding.ClusterMappings.{
  InstanceInfo, in_service, post_service, get_instance_id_to_ip_mapping,
  group_instances_to_cluster_mappings, group_instances, add_replica, ip_of, insert_ip, instance_ids,
  collect_ips,
}
use fledge_key_value_service.Sharding.ClusterMappings.Replicas.{
  replicas_of, IsReplica, group_instances_lem,
}
use fledge_key_value_service.Sharding.ClusterMappings.Addresses.{is_serving}

abbrev instances : List InstanceInfo
instances =
    record {
      id = "i1";
      service_status = in_service;
      instance_group = "kv-server-test-0-instance-asg";
      private_ip_address = "";
    }
    ∷ record {
      id = "i2";
      service_status = in_service;
      instance_group = "kv-server-test-1-instance-asg";
      private_ip_address = "";
    }
    ∷ record {
      id = "i3";
      service_status = post_service;
      instance_group = "kv-server-test-1-instance-asg";
      private_ip_address = "";
    }
    ∷ []

-- The addresses that the cloud gives for any ids.
abbrev describe : List String → List InstanceInfo
describe ids =
    record {
      id = "i1";
      service_status = in_service;
      instance_group = "";
      private_ip_address = "10.0.0.1";
    }
    ∷ record {
      id = "i2";
      service_status = in_service;
      instance_group = "";
      private_ip_address = "10.0.1.1";
    }
    ∷ []

names :
    (get_shard_number_off_asg_name "test" "kv-server-test-12-instance-asg" ≡ ok 12)
    × (get_shard_number_off_asg_name "test" "kv-server-prod-12-instance-asg" ≡ err invalid_argument)
    × (get_shard_number_off_asg_name "test" "kv-server-test--instance-asg" ≡ err invalid_argument)
    × (get_shard_number_off_asg_name "test" "kv-server-test-4294967296-instance-asg"
        ≡ err invalid_argument)
unfolding get_shard_number_off_asg_name match_asg strip number_before
names = (refl, refl, refl, refl)

grouped :
    group_instances_to_cluster_mappings "test" 2 describe instances
    ≡ ("10.0.0.1" ∷ []) ∷ ("10.0.1.1" ∷ []) ∷ []
unfolding group_instances_to_cluster_mappings group_instances add_replica ip_of insert_ip
    instance_ids collect_ips get_instance_id_to_ip_mapping get_shard_number_off_asg_name match_asg
    strip number_before find emplace set_insert
grouped = refl

group_instances_lem_example :
    (length (group_instances_to_cluster_mappings "test" 2 describe instances) ≡ 2)
    × ((ids : List String) × ((id : String) → contains id ids ≡ is_serving id instances)
        × ((contains "10.0.1.1"
                (replicas_of (group_instances_to_cluster_mappings "test" 2 describe instances) 1)
              ≡ true)
            ↔ IsReplica "test" (describe ids) 1 "10.0.1.1" instances))
group_instances_lem_example =
    group_instances_lem "test" 2 describe instances 1 "10.0.1.1" (omega arith)
