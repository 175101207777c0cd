-- ===== src/Transcode.antt =====
-- app/transcode: the profiles, and the engine that chooses how a file is transcoded.
pub mod Profiles
pub mod Engine
pub mod Process
pub mod Outputs
pub mod Delivery
pub mod Fallback
