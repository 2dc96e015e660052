-- ===== src/Sharding.antt =====
-- components/sharding: the shard manager, which keeps the clients of the other shards' replicas
-- (ShardManager), the sharded lookup over it (Lookups), and the mapping of the running instances to
-- shards (AsgName, ClusterMappings).
pub mod ShardManager
pub mod Lookups
pub mod AsgName
pub mod ClusterMappings
