-- ===== src/Storage.antt =====
-- components/data/blob_storage: the streams of blobs.
pub mod Streambuf
