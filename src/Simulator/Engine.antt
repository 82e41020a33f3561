-- ===== src/Simulator/Engine.antt =====
-- services/SimulatorEngine.ts with services/SimulatorBundleFetcher.ts.
pub mod Service
pub mod Ticks
mod Counts
mod Limits
pub mod Admission
pub mod Ends
pub mod Failed
pub mod Pace
pub mod Hours
