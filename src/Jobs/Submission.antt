-- ===== src/Jobs/Submission.antt =====
-- app/services/jobs.py, JobService.submit.
use media_engine.Prelude.{
  ℕ, String, Bool, true, false, none, some, List, [], ◌∷◌, ◌++◌, ◌&&◌, ◌=ₛ◌, ◌+◌, ltb,
  if◌then◌else◌, find, Result, ok, ◌>>=◌, ◌>>◌,
}
use media_engine.Domain.Pipelines.{PipelineDefinition}
use media_engine.Models.{Status, is_queued, is_completed, Blob, PipelineRun, JobRequest, Db}
use media_engine.Settings.{Settings, hours}
use media_engine.Webhooks.Outbox.{enqueue_job_webhook_event}
use media_engine.Workers.Leases.{save_run}
use media_engine.Workers.Requests.{is_active}
use media_engine.Jobs.Stages.{ensure_stages}
use media_engine.Jobs.Cache.{is_cache_hit, extended_run, extend_cached}
use media_engine.Jobs.Requests.{
  Surroundings, Submission, JobSubmissionResult, run_key_of, source_blob, get_by_idempotency_key,
  validate_replay,
}

abbrev pub new_run : Settings → Surroundings → Submission → Blob → String → PipelineRun
new_run settings around request blob run_key = record {
  id = around.run_id;
  source_blob_id = blob.id;
  run_key = run_key;
  pipeline_name = request.pipeline.name;
  pipeline_version = request.pipeline.version;
  schema_version = request.pipeline.schema_version;
  options = request.options;
  processor_versions = request.pipeline.processor_versions;
  status = Status.queued;
  completed_at = none;
  expires_at = around.now + hours settings.pipeline_retention_hours;
}

abbrev pub is_run_of_key : String → PipelineRun → Bool
is_run_of_key run_key run = run.run_key =ₛ run_key

-- `insert(PipelineRun) … on_conflict_do_nothing`, then the run of the key: the runs, that run, and
-- whether it was there before.
unfoldable pub upsert_run : PipelineRun → List PipelineRun → List PipelineRun × PipelineRun × Bool
unfolding find
upsert_run candidate runs = elim (find (is_run_of_key candidate.run_key) runs) [
  | none ↦ (runs ++ candidate ∷ [], candidate, false)
  | some run ↦ (runs, run, true)
]

abbrev pub restarted_run : ℕ → PipelineRun → PipelineRun
restarted_run expires_at run = record run {
  status = Status.queued;
  completed_at = none;
  expires_at = expires_at;
}

-- The three ways to serve a request from its run: the tables, the run, the request's status and
-- whether the cache was hit.
unfoldable pub serve :
    Settings
    → Surroundings
    → PipelineDefinition
    → PipelineRun
    → Db
    → Result (Db × PipelineRun × Status × Bool)
unfolding is_cache_hit extend_cached ensure_stages save_run
serve settings around pipeline run db =
    let expires_at = around.now + hours settings.pipeline_retention_hours in
    if is_cache_hit around.store around.now run pipeline db
    then ok (
      extend_cached expires_at run pipeline db,
      extended_run expires_at run,
      Status.completed,
      true,
    )
    else if is_active run.status && ltb around.now run.expires_at
    then ((if is_queued run.status
          then ensure_stages settings around.stage_ids around.now run pipeline false db
          else ok db)
        >>= λ db'. ok (db', run, run.status, false))
    else (let restarted = restarted_run expires_at run in
        ensure_stages settings around.stage_ids around.now restarted pipeline true
          (record db { runs = save_run restarted db.runs })
        >>= λ db'. ok (db', restarted, Status.queued, false))

abbrev pub new_job : Surroundings → Submission → PipelineRun → Status → Bool → Bool → JobRequest
new_job around request run status cache_hit run_reused = record {
  id = around.job_id;
  client_id = request.client_id;
  pipeline_run_id = run.id;
  asset_id = request.asset_id;
  client_job_id = request.client_job_id;
  idempotency_key = request.idempotency_key;
  callback_url = request.callback_url;
  webhook_endpoint_id = request.webhook_endpoint_id;
  status = status;
  cache_hit = cache_hit;
  run_reused = run_reused;
  updated_at = around.now;
}

-- A replayed request: the request that is there, if it asked for the same.
abbrev pub replay_of : Submission → String → Db → JobRequest → Result (Db × JobSubmissionResult)
replay_of request run_key db job =
    validate_replay request run_key db.runs job
    >> ok (db, record { job = job; idempotent_replay = true })

-- The insert of the request. `committed` are the requests that other transactions have committed
-- since this one looked for the key, so that the unique key of a client's idempotency keys may be
-- taken by now; then the whole submission is rolled back.
unfoldable pub insert_job :
    Submission
    → String
    → Db
    → Db
    → List JobRequest
    → PipelineRun
    → ℕ
    → ℕ
    → JobRequest
    → Result (Db × JobSubmissionResult)
unfolding get_by_idempotency_key validate_replay enqueue_job_webhook_event
insert_job request run_key before db committed run now event_id job =
    let jobs = before.jobs ++ committed in
    elim (get_by_idempotency_key request.client_id request.idempotency_key jobs) [
      | some winner ↦
          validate_replay request run_key db.runs winner
          >> ok (record before { jobs = jobs }, record { job = winner; idempotent_replay = true })
      | none ↦
          let stored = record db { jobs = jobs ++ job ∷ [] } in
          ok (
            record stored {
              events =
                  if is_completed job.status
                  then enqueue_job_webhook_event now event_id job run stored
                  else stored.events;
            },
            record { job = job; idempotent_replay = false },
          )
    ]

unfoldable pub submit :
    Settings → Surroundings → List JobRequest → Submission → Db → Result (Db × JobSubmissionResult)
unfolding source_blob get_by_idempotency_key upsert_run serve insert_job run_key_of
submit settings around committed request db = source_blob around request db >>= λ blob.
    let run_key = run_key_of around request blob in
    elim (get_by_idempotency_key request.client_id request.idempotency_key db.jobs) [
      | some job ↦ replay_of request run_key db job
      | none ↦
          let (runs, run, run_reused) =
            upsert_run (new_run settings around request blob run_key) db.runs in
          serve settings around request.pipeline run (record db { runs = runs })
          >>= λ (served, run', status, cache_hit).
              insert_job request run_key db served committed run' around.now around.event_id
                (new_job around request run' status cache_hit run_reused)
    ]
