-- ===== src/Simulator/Queue.antt =====
-- services/SimulatorQueueService.ts: the queue of simulated alarm candidates, with the loop that
-- hands its jobs to a processor one at a time.
pub mod Data
pub mod Service
mod Counts
mod Turn
pub mod Sound
pub mod Line
mod Positions
mod Begins
pub mod Fifo
pub mod Drains
pub mod Stranded
pub mod Ends
mod Tests
