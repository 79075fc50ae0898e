-- ===== src/Adapter.antt =====
-- internal/adapter: the registry, the HTTP client with its retries, the Delta
-- carrier and the simulated carriers.
pub mod Registry
pub mod Http
pub mod Retry
pub mod Delta
pub mod Mock
pub mod Presets
mod Tests
