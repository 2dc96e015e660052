-- ===== src/Handlers.antt =====
-- components/data_server/request_handler: what answers the requests of clients.
pub mod Json
pub mod GetValuesV2
pub mod Adapter
pub mod GetValues
