-- ===== src/Reader.antt =====
-- public/data_loading/readers: reading a file of records in byte ranges.
pub mod Shards
