-- ===== src/Webhooks/Outbox.antt =====
-- app/services/webhooks.py, enqueue_job_webhook_event: the event that a job's end adds to the
-- outbox, inside the caller's transaction.
use media_engine.Prelude.{
  ℕ, String, Bool, Option, none, some, List, [], ◌∷◌, ◌++◌, ◌&&◌, ◌==◌, ◌=ₛ◌, if◌then◌else◌,
  contains, find, any, is_some_of,
}
use media_engine.Models.{
  Status, Db, JobRequest, PipelineRun, WebhookEndpoint, WebhookEvent, EventStatus,
}

-- `f"job.{job.status}"`, at the two statuses that reach it.
abbrev pub job_event_type : Status → Option String
job_event_type Status.completed = some "job.completed"
job_event_type Status.failed = some "job.failed"
job_event_type _ = none

abbrev pub is_enabled_endpoint : ℕ → WebhookEndpoint → Bool
is_enabled_endpoint endpoint_id endpoint = endpoint.id == endpoint_id && endpoint.enabled

-- The unique key `uq_webhook_event_job_type`.
abbrev pub has_job_type : ℕ → String → WebhookEvent → Bool
has_job_type job_id type event = is_some_of event.job_request_id job_id && event.event_type =ₛ type

abbrev pub new_event : ℕ → ℕ → String → JobRequest → PipelineRun → WebhookEndpoint → WebhookEvent
new_event now event_id event_type job run endpoint = record {
  id = event_id;
  client_id = job.client_id;
  endpoint_id = endpoint.id;
  job_request_id = some job.id;
  event_type = event_type;
  payload = record {
    event_id = event_id;
    event_type = event_type;
    created_at = now;
    job_id = some job.id;
    client_job_id = job.client_job_id;
    asset_id = some job.asset_id;
    pipeline_run_id = some job.pipeline_run_id;
    pipeline = run.pipeline_name;
    pipeline_version = run.pipeline_version;
    status = some job.status;
    cache_hit = job.cache_hit;
    run_reused = job.run_reused;
  };
  status = EventStatus.pending;
  attempt_count = 0;
  next_attempt_at = now;
  lease_token = none;
  lease_expires_at = none;
  delivered_at = none;
  abandoned_at = none;
  last_error = none;
  created_at = now;
}

-- `insert … on_conflict_do_nothing`
unfoldable pub insert_event : WebhookEvent → ℕ → List WebhookEvent → List WebhookEvent
insert_event event job_id events =
    if any (has_job_type job_id event.event_type) events then events else events ++ event ∷ []

-- The endpoint that gets an event of this type for the job, if any.
unfoldable pub subscribed_endpoint : JobRequest → String → Db → Option WebhookEndpoint
subscribed_endpoint job event_type db = elim job.webhook_endpoint_id [
  | none ↦ none
  | some endpoint_id ↦ elim (find (is_enabled_endpoint endpoint_id) db.endpoints) [
    | none ↦ none
    | some endpoint ↦ if contains event_type endpoint.events then some endpoint else none
  ]
]

-- `event_id` is the UUID that the call draws; the events after it.
unfoldable pub enqueue_job_webhook_event : ℕ → ℕ → JobRequest → PipelineRun → Db → List WebhookEvent
enqueue_job_webhook_event now event_id job run db = elim (job_event_type job.status) [
  | none ↦ db.events
  | some event_type ↦ elim (subscribed_endpoint job event_type db) [
    | none ↦ db.events
    | some endpoint ↦
        insert_event (new_event now event_id event_type job run endpoint) job.id db.events
  ]
]
