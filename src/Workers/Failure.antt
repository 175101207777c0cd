-- ===== src/Workers/Failure.antt =====
-- app/services/workers.py, WorkerService.fail.
use media_engine.Prelude.{
  ℕ, String, Bool, none, some, List, if◌then◌else◌, ltb, not, Result, ok, ◌>>=◌, ◌>>◌,
}
use media_engine.Models.{Status, StageRun, Db}
use media_engine.Workers.Leases.{
  locked_stage, validate_active_lease, save_stage, save_run, find_run,
}
use media_engine.Workers.Requests.{UsageCompletion, persist_usage_events, settle_jobs}

-- `stage.attempt < stage.max_attempts`
abbrev pub will_retry : StageRun → Bool
will_retry stage = ltb stage.attempt stage.max_attempts

-- `"queued" if will_retry else "failed"`
abbrev pub status_after : Bool → Status
status_after retry = if retry then Status.queued else Status.failed

abbrev pub failed_stage : ℕ → String → StageRun → StageRun
failed_stage now error_message stage = record stage {
  status = status_after (will_retry stage);
  error_message = some error_message;
  lease_token = none;
  lease_expires_at = none;
  heartbeat_at = some now;
  progress = none;
  completed_at = if will_retry stage then stage.completed_at else some now;
}

unfoldable pub fail :
    ℕ → (ℕ → ℕ) → ℕ → ℕ → ℕ → String → List UsageCompletion → Db → Result (Db × StageRun)
unfolding locked_stage save_stage save_run persist_usage_events settle_jobs
fail now event_ids worker_id stage_id lease_token error_message usage_events db =
    locked_stage stage_id db >>= λ stage.
    validate_active_lease stage worker_id lease_token now
    >> (persist_usage_events stage db.providers usage_events db.usage_events >>= λ usage.
        find_run stage.pipeline_run_id db >>= λ run.
        let retry = will_retry stage in
        let failed = failed_stage now error_message stage in
        let run' = record run { status = status_after retry } in
        ok (
          settle_jobs now event_ids (not retry) (status_after retry) run' (record db {
            stages = save_stage failed db.stages;
            runs = save_run run' db.runs;
            usage_events = usage;
          }),
          failed,
        ))
