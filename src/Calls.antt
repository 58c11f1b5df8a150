-- ===== src/Calls.antt =====
-- call_manager/: one call at a time.
pub mod Manager
pub mod Notices
pub mod Second
pub mod Answers
pub mod Frame
mod Tests
