-- ===== src/JobQueue.antt =====
-- app/jobs.py: the in-memory queue of transcodes.
pub mod Records
pub mod Manager
pub mod Worker
pub mod Soundness
pub mod Taking
pub mod Turns
pub mod Ends
pub mod Draining
pub mod Uploads
