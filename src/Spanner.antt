-- ===== src/Spanner.antt =====
-- internal/adapter/spanner: the repositories of quotes and of appetite rules.
pub mod Quotes
pub mod Appetite
pub mod Slot
mod Tests
