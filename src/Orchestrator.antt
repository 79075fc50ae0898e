-- ===== src/Orchestrator.antt =====
-- internal/orchestrator: the parts of the fan-out, one to a module.
pub mod Order
pub mod Collect
pub mod Sorting
pub mod Response
pub mod Eligible
pub mod Status
pub mod CacheKey
pub mod Call
pub mod Quotes
pub mod Outcomes
pub mod Preparation
pub mod Rounds
pub mod Sharing
pub mod FanOut
mod Tests
mod Runs
