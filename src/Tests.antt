-- ===== src/Tests.antt =====
-- Instances of the theorems and small runs of the definitions.
mod Cache
mod Query
mod Lookup
mod Shards
mod Sharding
mod Loading
mod Server
mod Mappings
mod Reader
mod Queue
mod Storage
mod Handlers
mod Udf
mod Notifier
