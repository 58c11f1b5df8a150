-- ===== src/Sip.antt =====
-- sip_stack/: starting, stopping and using PJSUA.
pub mod Config
pub mod Stack
pub mod Requests
pub mod Callbacks
pub mod Lifecycle
pub mod Codecs
pub mod Delivery
