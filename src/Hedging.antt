-- ===== src/Hedging.antt =====
-- internal/orchestrator/hedging.go: the latency tracker, the choice of a hedge carrier, and the monitor.
pub mod Tracker
pub mod Record
pub mod Monitor
pub mod Quiet
pub mod Candidate
mod Tests
