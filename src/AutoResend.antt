-- ===== src/AutoResend.antt =====
-- auto_resend/: messages, the pool of each user, and the engine that sends them.
mod Tests
pub mod Payload
pub mod Pool
pub mod Engine
