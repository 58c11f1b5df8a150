-- ===== src/Account.antt =====
-- user_account/: logging in and out, and who hears of it.
pub mod User
pub mod Registration
mod Tests
