-- ===== src/Models.antt =====
-- app/persistence/models.py: the rows of the tables, and the database as the tables together.
-- A UUID, a time (seconds) and a number of bytes are natural numbers. Columns that no modelled
-- code reads or writes (created_at of most tables, updated_at, JSON metadata) are left out.
use media_engine.Prelude.{ℕ, String, Bool, true, false, Option, List}
use media_engine.Domain.Pipelines.{Options}

-- The texts that the status columns of runs, stages and requests hold.
pub data Status : Type 0 where
  blocked queued running completed failed : Status

abbrev pub is_blocked : Status → Bool
is_blocked Status.blocked = true
is_blocked _ = false

abbrev pub is_queued : Status → Bool
is_queued Status.queued = true
is_queued _ = false

abbrev pub is_running : Status → Bool
is_running Status.running = true
is_running _ = false

abbrev pub is_completed : Status → Bool
is_completed Status.completed = true
is_completed _ = false

abbrev pub is_failed : Status → Bool
is_failed Status.failed = true
is_failed _ = false

-- A capability value is a list of texts, or some other JSON value.
pub data CapabilityValue : Type 0 where
  values : List String → CapabilityValue
  other : CapabilityValue

abbrev pub CapabilityMap : Type 0
CapabilityMap = List (String × CapabilityValue)

pub data WorkerStatus : Type 0 where
  online offline : WorkerStatus

pub data DesiredState : Type 0 where
  active draining revoked : DesiredState

pub record Worker : Type 0 where
  pub id : ℕ
  pub worker_key : String
  pub display_name : String
  pub profile : String
  pub capabilities : CapabilityMap
  pub status : WorkerStatus
  pub desired_state : DesiredState
  pub credential_prefix : Option String
  pub credential_hash : Option String
  pub credential_created_at : Option ℕ
  pub credential_expires_at : Option ℕ
  pub credential_last_used_at : Option ℕ
  pub credential_revoked_at : Option ℕ
  pub removed_at : Option ℕ
  pub registered_at : Option ℕ
  pub last_seen_at : Option ℕ

-- `progress` counts thousandths: 1.0 is 1000.
pub record StageRun : Type 0 where
  pub id : ℕ
  pub pipeline_run_id : ℕ
  pub stage_name : String
  pub status : Status
  pub required_capabilities : CapabilityMap
  pub priority : ℕ
  pub attempt : ℕ
  pub max_attempts : ℕ
  pub lease_owner_id : Option ℕ
  pub lease_token : Option ℕ
  pub lease_expires_at : Option ℕ
  pub heartbeat_at : Option ℕ
  pub progress : Option ℕ
  pub error_message : Option String
  pub created_at : ℕ
  pub started_at : Option ℕ
  pub completed_at : Option ℕ

pub record StageDependency : Type 0 where
  pub stage_run_id : ℕ
  pub depends_on_stage_run_id : ℕ

pub record PipelineRun : Type 0 where
  pub id : ℕ
  pub source_blob_id : ℕ
  pub run_key : String
  pub pipeline_name : String
  pub pipeline_version : String
  pub schema_version : String
  pub options : Options
  pub processor_versions : List (String × String)
  pub status : Status
  pub completed_at : Option ℕ
  pub expires_at : ℕ

pub data BlobState : Type 0 where
  available deleting expired : BlobState

pub record Blob : Type 0 where
  pub id : ℕ
  pub sha256 : String
  pub size_bytes : ℕ
  pub media_type : Option String
  pub object_key : String
  pub state : BlobState
  pub expires_at : ℕ
  pub expired_at : Option ℕ

pub record Asset : Type 0 where
  pub id : ℕ
  pub client_id : ℕ
  pub blob_id : ℕ
  pub expires_at : ℕ

pub record Artifact : Type 0 where
  pub id : ℕ
  pub pipeline_run_id : ℕ
  pub producer_stage_run_id : ℕ
  pub blob_id : ℕ
  pub artifact_type : String
  pub format : String
  pub schema_version : String
  pub expires_at : ℕ

pub record JobRequest : Type 0 where
  pub id : ℕ
  pub client_id : ℕ
  pub pipeline_run_id : ℕ
  pub asset_id : ℕ
  pub client_job_id : Option String
  pub idempotency_key : Option String
  pub callback_url : Option String
  pub webhook_endpoint_id : Option ℕ
  pub status : Status
  pub cache_hit : Bool
  pub run_reused : Bool
  pub updated_at : ℕ

pub record WebhookEndpoint : Type 0 where
  pub id : ℕ
  pub client_id : ℕ
  pub name : String
  pub url : String
  pub encrypted_signing_secret : String
  pub events : List String
  pub enabled : Bool
  pub is_default : Bool

-- The payload of an event, less the texts that are built from its other fields.
pub record WebhookPayload : Type 0 where
  pub event_id : ℕ
  pub event_type : String
  pub created_at : ℕ
  pub job_id : Option ℕ
  pub client_job_id : Option String
  pub asset_id : Option ℕ
  pub pipeline_run_id : Option ℕ
  pub pipeline : String
  pub pipeline_version : String
  pub status : Option Status
  pub cache_hit : Bool
  pub run_reused : Bool

pub data EventStatus : Type 0 where
  pending processing retrying delivered abandoned : EventStatus

pub record WebhookEvent : Type 0 where
  pub id : ℕ
  pub client_id : ℕ
  pub endpoint_id : ℕ
  pub job_request_id : Option ℕ
  pub event_type : String
  pub payload : WebhookPayload
  pub status : EventStatus
  pub attempt_count : ℕ
  pub next_attempt_at : ℕ
  pub lease_token : Option ℕ
  pub lease_expires_at : Option ℕ
  pub delivered_at : Option ℕ
  pub abandoned_at : Option ℕ
  pub last_error : Option String
  pub created_at : ℕ

pub record WebhookDeliveryAttempt : Type 0 where
  pub webhook_event_id : ℕ
  pub attempt_number : ℕ
  pub started_at : ℕ
  pub completed_at : ℕ
  pub duration_ms : ℕ
  pub response_status : Option ℕ
  pub error_message : Option String
  pub outcome : String

-- Less the figures of its runtime options and the time and error of its last verification.
pub record ProviderConfig : Type 0 where
  pub id : ℕ
  pub name : String
  pub provider : String
  pub encrypted_api_key : String
  pub base_url : String
  pub models : List (String × String)
  pub enabled : Bool
  pub is_default : Bool
  pub created_at : ℕ

-- Less the `usage` document itself and its estimated cost, a decimal parsed from it.
pub record AiUsageEvent : Type 0 where
  pub id : ℕ
  pub stage_run_id : ℕ
  pub provider_config_id : Option ℕ
  pub stage_attempt : ℕ
  pub provider : String
  pub model : String
  pub operation : String
  pub outcome : String
  pub cost_usd_ticks : Option ℕ
  pub latency_ms : ℕ
  pub started_at : ℕ
  pub completed_at : ℕ

pub record ClientProject : Type 0 where
  pub id : ℕ
  pub name : String
  pub enabled : Bool

pub record ApiKey : Type 0 where
  pub id : ℕ
  pub client_id : ℕ
  pub name : String
  pub key_prefix : String
  pub key_hash : String
  pub scopes : List String
  pub expires_at : Option ℕ
  pub last_used_at : Option ℕ
  pub revoked_at : Option ℕ

pub record Db : Type 0 where
  pub clients : List ClientProject
  pub api_keys : List ApiKey
  pub workers : List Worker
  pub stages : List StageRun
  pub dependencies : List StageDependency
  pub runs : List PipelineRun
  pub jobs : List JobRequest
  pub assets : List Asset
  pub blobs : List Blob
  pub artifacts : List Artifact
  pub endpoints : List WebhookEndpoint
  pub events : List WebhookEvent
  pub attempts : List WebhookDeliveryAttempt
  pub providers : List ProviderConfig
  pub usage_events : List AiUsageEvent
