-- ===== src/Lookup.antt =====
-- components/internal_server: lookups in the local cache (Local), over all shards (Sharded) and for
-- other servers (Server), and the padding of the requests between servers (Padder). Types has
-- the messages of lookup.proto and the interface of lookup.h.
pub mod Types
pub mod Padder
pub mod Local
pub mod Sharded
pub mod Server
