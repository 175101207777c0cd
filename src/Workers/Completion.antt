-- ===== src/Workers/Completion.antt =====
-- app/services/workers.py, WorkerService.complete.
use Prim.Native.String.{compare as text_compare}
use text.Mathlib.Text.{is_lt}
use media_engine.Prelude.{
  ℕ, none, some, List, ◌+◌, if◌then◌else◌, order_by, Result, ok, ◌>>=◌, ◌>>◌,
}
use media_engine.Domain.Catalog.{get_pipeline}
use media_engine.Models.{Status, is_completed, StageRun, PipelineRun, AiUsageEvent, Db}
use media_engine.Settings.{Settings, hours}
use media_engine.Workers.Leases.{
  locked_stage, validate_lease_identity, validate_active_lease, save_stage, save_run, find_run,
  touch_worker,
}
use media_engine.Workers.Requests.{UsageCompletion, persist_usage_events, settle_jobs}
use media_engine.Workers.Contract.{ArtifactCompletion, validate_artifact_contract}
use media_engine.Workers.Publication.{ObjectStore, NewIds, publish_all}
use media_engine.Workers.StageGraph.{
  activate_dependents, derive_run_status, extend_run_artifact_retention,
}

-- `sorted(artifacts, key=lambda item: item.sha256)`
abbrev pub by_sha : List ArtifactCompletion → List ArtifactCompletion
by_sha = order_by (λ a b. is_lt (text_compare a.sha256 b.sha256))

abbrev pub completed_stage : ℕ → StageRun → StageRun
completed_stage now stage = record stage {
  status = Status.completed;
  progress = some 1000;
  completed_at = some now;
  heartbeat_at = some now;
  lease_expires_at = none;
  error_message = none;
}

abbrev pub finished_run : ℕ → ℕ → Status → PipelineRun → PipelineRun
finished_run now expires_at status run = record run {
  status = status;
  completed_at = if is_completed status then some now else none;
  expires_at = if is_completed status then expires_at else run.expires_at;
}

-- The stage table after the stage is saved and its dependents are activated.
unfoldable pub advanced_stages : ℕ → StageRun → Db → List StageRun
unfolding save_stage activate_dependents
advanced_stages now stage db =
    activate_dependents db.dependencies stage.id (save_stage (completed_stage now stage) db.stages)

-- What follows once the artifacts are recorded.
unfoldable pub finish_stage :
    ℕ → (ℕ → ℕ) → ℕ → ℕ → StageRun → PipelineRun → List AiUsageEvent → Db → Db
unfolding save_run derive_run_status advanced_stages extend_run_artifact_retention settle_jobs
finish_stage now event_ids worker_id expires_at stage run usage db =
    let stages = advanced_stages now stage db in
    let status = derive_run_status stages run.id in
    let run' = finished_run now expires_at status run in
    let db' = record db { stages = stages; usage_events = usage; runs = save_run run' db.runs } in
    let kept =
      if is_completed status then extend_run_artifact_retention run.id expires_at db' else db' in
    let settled = settle_jobs now event_ids (is_completed status) status run' kept in
    record settled { workers = touch_worker now worker_id db.workers }

-- Once the lease is found to be active.
unfoldable pub complete_active :
    Settings
    → ObjectStore
    → NewIds
    → ℕ
    → ℕ
    → StageRun
    → List ArtifactCompletion
    → List UsageCompletion
    → Db
    → Result (Db × StageRun)
unfolding validate_artifact_contract publish_all persist_usage_events finish_stage get_pipeline
complete_active settings store ids now worker_id stage artifacts usage_events db =
    let expires_at = now + hours settings.pipeline_retention_hours in
    find_run stage.pipeline_run_id db >>= λ run.
    get_pipeline run.pipeline_name (some run.pipeline_version) >>= λ pipeline.
    validate_artifact_contract pipeline stage artifacts
    >> (publish_all store ids expires_at stage (by_sha artifacts) db >>= λ published.
        persist_usage_events stage published.providers usage_events published.usage_events
        >>= λ usage. ok (
          finish_stage now ids.event_ids worker_id expires_at stage run usage published,
          completed_stage now stage,
        ))

unfoldable pub complete :
    Settings
    → ObjectStore
    → NewIds
    → ℕ
    → ℕ
    → ℕ
    → ℕ
    → List ArtifactCompletion
    → List UsageCompletion
    → Db
    → Result (Db × StageRun)
unfolding locked_stage complete_active
complete settings store ids now worker_id stage_id lease_token artifacts usage_events db =
    locked_stage stage_id db >>= λ stage.
    if is_completed stage.status
    then validate_lease_identity stage worker_id lease_token >> ok (db, stage)
    else validate_active_lease stage worker_id lease_token now
      >> complete_active settings store ids now worker_id stage artifacts usage_events db
