-- ===== src/Locks.antt =====
-- Threads that take and give back the locks of the program, `MpLock` (utils/src/MpLock.cpp) and
-- `MpRWLock` (utils/src/MpRWLock.cpp): what the operations of the auto resend engine and of the message
-- transport take and give back, in order, and the pools of callbacks (utils/include/MpPool.h).
pub mod Threads
pub mod Programs
pub mod Order
pub mod Closed
pub mod Lawful
pub mod Families
pub mod Starts
pub mod Reports
pub mod Deadlock
pub mod PoolUse
pub mod Nested
pub mod Tests
