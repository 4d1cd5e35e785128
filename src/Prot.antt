-- ===== src/Prot.antt =====
-- agent/prot: the processor of the protocol state machines.
pub mod World
pub mod Update
pub mod Processor
pub mod History
pub mod Archive
pub mod Keeps
pub mod Runs
pub mod Frozen
pub mod Ends
pub mod Path
pub mod Reps
pub mod Remove
pub mod Notify
pub mod Status
