-- ===== src/Smkex.antt =====
-- smkex/: the key exchange.
mod Tests
mod Cases
pub mod Env
pub mod Cipher
pub mod Sealed
pub mod Release
pub mod Journey
mod CipherTests
pub mod Session
pub mod Hash
pub mod Send
pub mod Init
pub mod Handlers
pub mod Process
pub mod Keeps
pub mod Transition
pub mod Step
pub mod Received
pub mod Verify
pub mod Wire
pub mod Start
pub mod Early
pub mod Faults
pub mod Agreement
