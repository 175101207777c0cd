-- ===== src/Workers.antt =====
-- app/services/workers.py: the service behind the workers' API.
pub mod Capabilities
pub mod Leases
pub mod Requests
pub mod Failure
pub mod Contract
pub mod Publication
pub mod StageGraph
pub mod Completion
pub mod Fencing
pub mod Replays
pub mod Claims
pub mod Outcomes
