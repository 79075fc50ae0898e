-- ===== src/Service.antt =====
-- The parts of the repository put together.
pub mod Cache
pub mod Server
pub mod Quoted
pub mod Warmup
pub mod Start
mod Tests
mod Samples
