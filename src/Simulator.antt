-- ===== src/Simulator.antt =====
-- The simulator of RFC-0010: quotas, sessions with their timers, and the queue of alarm candidates.
pub mod Data
pub mod Quotas
pub mod Rows
pub mod Scan
pub mod Engine
pub mod Queue
mod Tests
