-- ===== src/Loading.antt =====
-- components/data_server/data_loading/data_orchestrator.cc: the records of a file and what they do to the
-- cache (Records), the names of files (Filenames), and the loading of the files themselves (Files).
pub mod Records
pub mod Filenames
pub mod Files
pub mod Queue
pub mod Retry
pub mod Notifier
