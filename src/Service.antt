-- ===== src/Service.antt =====
-- The services of the program (base_service/include/MpBaseService.h) and what they call of PJSUA.
pub mod Pjsua
pub mod State
pub mod Addresses
pub mod Commands
pub mod Sound
pub mod Frame
pub mod Runs
pub mod Sample
mod Tests
