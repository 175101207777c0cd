-- ===== src/Jobs.antt =====
-- app/services/jobs.py: the submission of jobs, and what it keeps of earlier ones.
pub mod Stages
pub mod Cache
pub mod Requests
pub mod Submission
pub mod Outputs
pub mod Serving
pub mod Sources
pub mod Replays
