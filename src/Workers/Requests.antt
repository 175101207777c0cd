-- ===== src/Workers/Requests.antt =====
-- app/services/workers.py: what a stage's end does beyond the stage itself, the usage events that
-- it records and the requests that are attached to its run.
use media_engine.Prelude.{
  ℕ, String, Bool, Option, none, some, List, [], ◌∷◌, ◌++◌, map, ◌||◌, ◌==◌, ◌=ₛ◌, if◌then◌else◌,
  any, find, select, update_where, Exception, Result, ok, raised,
}
use media_engine.Models.{
  Status, is_queued, is_running, StageRun, PipelineRun, JobRequest, WebhookEvent, ProviderConfig,
  AiUsageEvent, Db,
}
use media_engine.Webhooks.Outbox.{enqueue_job_webhook_event}
use media_engine.Workers.Leases.{attached}

-- `cost_in_usd_ticks` is the integer under that key, if the value there is one.
pub record UsageCompletion : Type 0 where
  pub event_id : ℕ
  pub provider : String
  pub model : String
  pub operation : String
  pub outcome : String
  pub cost_in_usd_ticks : Option ℕ
  pub latency_ms : ℕ
  pub started_at : ℕ
  pub completed_at : ℕ

abbrev provider_id_of : String → List ProviderConfig → Option ℕ
provider_id_of provider providers = elim (find (λ row. row.provider =ₛ provider) providers) [
  | none ↦ none
  | some row ↦ some row.id
]

abbrev usage_event : StageRun → List ProviderConfig → UsageCompletion → AiUsageEvent
usage_event stage providers event = record {
  id = event.event_id;
  stage_run_id = stage.id;
  provider_config_id = provider_id_of event.provider providers;
  stage_attempt = stage.attempt;
  provider = event.provider;
  model = event.model;
  operation = event.operation;
  outcome = event.outcome;
  cost_usd_ticks = event.cost_in_usd_ticks;
  latency_ms = event.latency_ms;
  started_at = event.started_at;
  completed_at = event.completed_at;
}

-- `_persist_usage_events`; a second row under one primary key fails the transaction.
unfoldable pub persist_usage_events :
    StageRun
    → List ProviderConfig
    → List UsageCompletion
    → List AiUsageEvent
    → Result (List AiUsageEvent)
unfolding any find
persist_usage_events stage providers [] rows = ok rows
persist_usage_events stage providers (event ∷ events) rows =
    let rest =
      persist_usage_events stage providers events
        (rows ++ usage_event stage providers event ∷ []) in
    if any (λ (row : AiUsageEvent). row.id == event.event_id) rows
    then raised Exception.integrity_error
    else rest

-- `JobRequest.status.in_({"queued", "running"})`
abbrev pub is_active : Status → Bool
is_active status = is_queued status || is_running status

abbrev pub with_status : ℕ → Status → JobRequest → JobRequest
with_status now status job = record job { status = status; updated_at = now }

unfoldable pub enqueue_for : ℕ → (ℕ → ℕ) → PipelineRun → List JobRequest → Db → List WebhookEvent
enqueue_for now event_ids run [] db = db.events
enqueue_for now event_ids run (job ∷ jobs) db =
    enqueue_for now event_ids run jobs
      (record db { events = enqueue_job_webhook_event now (event_ids job.id) job run db })

-- The loop over the run's active requests: each takes the status, and has its event enqueued if
-- `notify` holds. `event_ids` gives the UUID that is drawn for a request's event.
unfoldable pub settle_jobs : ℕ → (ℕ → ℕ) → Bool → Status → PipelineRun → Db → Db
unfolding enqueue_for update_where select
settle_jobs now event_ids notify status run db = record db {
  jobs = update_where (attached run.id is_active) (with_status now status) db.jobs;
  events =
      if notify
      then enqueue_for now event_ids run
          (map (with_status now status) (select (attached run.id is_active) db.jobs)) db
      else db.events;
}
