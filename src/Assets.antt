-- ===== src/Assets.antt =====
-- app/services/assets.py: the ingest of uploads.
pub mod Ingest
pub mod Submitting
