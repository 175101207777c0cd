-- ===== src/Examples.antt =====
-- Tests, and the theorems at concrete inputs.
mod Graphs
mod Scheduling
mod Creation
mod Joining
mod Leases
mod Webhooks
mod Workers
mod Jobs
mod Endpoints
mod Retention
mod Access
mod JobQueue
mod Transcode
mod Assets
