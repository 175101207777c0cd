-- ===== src/Settings.antt =====
-- app/config.py: the settings that the modelled services read, with the bounds of their fields.
use media_engine.Prelude.{ℕ, String, Bool, Option, ◌≤◌, ◌*◌}

pub record Settings : Type 0 where
  pub asset_retention_hours : ℕ
  pub pipeline_retention_hours : ℕ
  pub artifact_url_expiry_seconds : ℕ
  pub retention_batch_size : ℕ
  pub transcode_required_backend : Option String
  pub worker_lease_seconds : ℕ
  -- A float, in thousandths of a second.
  pub webhook_timeout_seconds : ℕ
  pub webhook_max_attempts : ℕ
  pub webhook_initial_backoff_seconds : ℕ
  pub webhook_max_backoff_seconds : ℕ
  pub webhook_lease_seconds : ℕ
  pub webhook_allow_private_addresses : Bool

-- The `ge` and `le` constraints of `Settings`.
pub record IsValid (s : Settings) : Type 0 where
  pub asset_retention : 1 ≤ s.asset_retention_hours
  pub pipeline_retention : 1 ≤ s.pipeline_retention_hours
  pub url_expiry : 60 ≤ s.artifact_url_expiry_seconds
  pub url_expiry_max : s.artifact_url_expiry_seconds ≤ 86400
  pub batch : 1 ≤ s.retention_batch_size
  pub batch_max : s.retention_batch_size ≤ 1000
  pub lease : 15 ≤ s.worker_lease_seconds
  pub timeout : 1000 ≤ s.webhook_timeout_seconds
  pub timeout_max : s.webhook_timeout_seconds ≤ 120000
  pub attempts : 1 ≤ s.webhook_max_attempts
  pub attempts_max : s.webhook_max_attempts ≤ 100
  pub initial_backoff : 1 ≤ s.webhook_initial_backoff_seconds
  pub initial_backoff_max : s.webhook_initial_backoff_seconds ≤ 3600
  pub max_backoff : 1 ≤ s.webhook_max_backoff_seconds
  pub max_backoff_max : s.webhook_max_backoff_seconds ≤ 86400
  pub webhook_lease : 5 ≤ s.webhook_lease_seconds
  pub webhook_lease_max : s.webhook_lease_seconds ≤ 600

-- `timedelta(hours=n)`, in seconds.
abbrev pub hours : ℕ → ℕ
hours n = n * 3600
