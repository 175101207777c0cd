-- ===== src/Scheduling.antt =====
-- The stage graph of a run while workers claim, complete and fail its stages: what
-- app/services/workers.py and app/maintenance.py keep true of the tables of stages and dependencies.
pub mod Invariant
pub mod Inserting
pub mod Linking
pub mod Steps
pub mod Creation
pub mod Joining
pub mod Submitting
pub mod Counts
pub mod Completion
pub mod Calls
pub mod Recovery
pub mod Progress
pub mod Rows
pub mod Leases
