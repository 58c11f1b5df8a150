-- ===== src/DataMsg.antt =====
-- data_msg/: the transport of single messages and the dispatch of incoming ones.
pub mod Transport
pub mod Manager
pub mod Retries
mod Tests
