-- ===== src/Middleware.antt =====
-- internal/middleware: authentication with its limiter of failures, and the limit on requests in flight.
pub mod Auth
pub mod Concurrency
pub mod Eviction
pub mod Writer
pub mod Chain
mod Tests
