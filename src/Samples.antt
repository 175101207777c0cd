-- ===== src/Samples.antt =====
-- A small database: one run of the transcode pipeline, and one run of two stages of which the
-- second waits for the first.
use media_engine.Prelude.{ℕ, String, true, false, none, some, [], ◌∷◌}
use media_engine.Models.{
  Status, values, WorkerStatus, DesiredState, Worker, StageRun, StageDependency, PipelineRun,
  JobRequest, WebhookEndpoint, Db,
}
use media_engine.Settings.{Settings}

abbrev pub settings : Settings
settings = record {
  asset_retention_hours = 24;
  pipeline_retention_hours = 24;
  artifact_url_expiry_seconds = 900;
  retention_batch_size = 100;
  transcode_required_backend = none;
  worker_lease_seconds = 90;
  webhook_timeout_seconds = 10000;
  webhook_max_attempts = 8;
  webhook_initial_backoff_seconds = 10;
  webhook_max_backoff_seconds = 3600;
  webhook_lease_seconds = 60;
  webhook_allow_private_addresses = false;
}

abbrev pub worker : Worker
worker = record {
  id = 7;
  worker_key = "worker-cpu-1";
  display_name = "CPU";
  profile = "cpu";
  capabilities =
      ("processors", values ("ffmpeg" ∷ "tesseract" ∷ []))
      ∷ ("pipelines", values ("transcode" ∷ []))
      ∷ [];
  status = WorkerStatus.online;
  desired_state = DesiredState.active;
  credential_prefix = some "abc";
  credential_hash = some "hash";
  credential_created_at = some 1;
  credential_expires_at = none;
  credential_last_used_at = none;
  credential_revoked_at = none;
  removed_at = none;
  registered_at = some 1;
  last_seen_at = some 1;
}

-- A stage row of run 1 that no worker has touched.
abbrev pub fresh_stage : ℕ → String → Status → StageRun
fresh_stage id name status = record {
  id = id;
  pipeline_run_id = 1;
  stage_name = name;
  status = status;
  required_capabilities = ("processors", values ("ffmpeg" ∷ [])) ∷ [];
  priority = 0;
  attempt = 0;
  max_attempts = 3;
  lease_owner_id = none;
  lease_token = none;
  lease_expires_at = none;
  heartbeat_at = none;
  progress = none;
  error_message = none;
  created_at = 10;
  started_at = none;
  completed_at = none;
}

abbrev pub probe_stage : StageRun
probe_stage = fresh_stage 11 "probe" Status.queued

abbrev pub scene_stage : StageRun
scene_stage = fresh_stage 12 "scene_detect" Status.blocked

abbrev pub scene_dependency : StageDependency
scene_dependency = record { stage_run_id = 12; depends_on_stage_run_id = 11 }

abbrev pub run : PipelineRun
run = record {
  id = 1;
  source_blob_id = 100;
  run_key = "key";
  pipeline_name = "ai_prepare";
  pipeline_version = "1";
  schema_version = "1";
  options = [];
  processor_versions = [];
  status = Status.queued;
  completed_at = none;
  expires_at = 1000000;
}

abbrev pub job : JobRequest
job = record {
  id = 50;
  client_id = 3;
  pipeline_run_id = 1;
  asset_id = 60;
  client_job_id = none;
  idempotency_key = none;
  callback_url = none;
  webhook_endpoint_id = some 80;
  status = Status.queued;
  cache_hit = false;
  run_reused = false;
  updated_at = 10;
}

abbrev pub endpoint : WebhookEndpoint
endpoint = record {
  id = 80;
  client_id = 3;
  name = "main";
  url = "https://example.com/hook";
  encrypted_signing_secret = "secret";
  events = "job.completed" ∷ "job.failed" ∷ [];
  enabled = true;
  is_default = true;
}

abbrev pub db : Db
db = record {
  clients = [];
  api_keys = [];
  workers = worker ∷ [];
  stages = probe_stage ∷ scene_stage ∷ [];
  dependencies = scene_dependency ∷ [];
  runs = run ∷ [];
  jobs = job ∷ [];
  assets = [];
  blobs = [];
  artifacts = [];
  endpoints = endpoint ∷ [];
  events = [];
  attempts = [];
  providers = [];
  usage_events = [];
}
