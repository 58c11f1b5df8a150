-- ===== src/Buddy.antt =====
-- buddy/: the buddies and their presence.
pub mod BuddyList
pub mod Subscriptions
mod Tests
pub mod Directory
pub mod Filed
