-- ===== src/Handler.antt =====
-- internal/handler/http.go: validation, the domain request, the answer of POST /quotes, and the health checks.
pub mod Validate
pub mod Post
pub mod Health
pub mod Gateway
mod Tests
