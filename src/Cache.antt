-- ===== src/Cache.antt =====
-- components/data_server/cache: the in-memory store. State and operations are in State, KeyValue and
-- Sets, sequences of calls in Run; the other children hold the proofs.
pub mod State
pub mod KeyValue
pub mod Sets
pub mod Run
