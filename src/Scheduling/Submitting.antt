-- ===== src/Scheduling/Submitting.antt =====
-- A submission to app/services/jobs.py and the stage table of app/services/workers.py.
use media_engine.Prelude.{
  ℕ, String, Bool, true, false, Option, some, List, ◌≡◌, refl, inl, inr, ◌++◌, arith, ltb,
  Option-cases, Bool-cases, ◌⊎◌, find, ok, ◌>>=◌, Holds, Holds-bind, Holds-ok,
}
use media_engine.Domain.Pipelines.{PipelineDefinition}
use media_engine.Domain.Catalog.{get_pipeline}
use media_engine.Models.{Status, is_queued, is_running, Blob, PipelineRun, JobRequest, Db}
use media_engine.Settings.{Settings, IsValid}
use media_engine.Workers.Requests.{is_active}
use media_engine.Jobs.Stages.{ensure_stages}
use media_engine.Jobs.Cache.{is_cache_hit, extend_cached}
use media_engine.Jobs.Requests.{
  Surroundings, Submission, JobSubmissionResult, run_key_of, source_blob, get_by_idempotency_key,
  validate_replay,
}
use media_engine.Jobs.Submission.{
  new_run, is_run_of_key, upsert_run, serve, new_job, insert_job, submit,
}
use media_engine.Scheduling.Steps.{Scheduled, ScheduledAfter}
use media_engine.Scheduling.Creation.{AreDrawn, ensure_stages-Scheduled}
use media_engine.Scheduling.Joining.{HasStages, joined-Scheduled}

insert_job-Scheduled :
    (request : Submission) (run_key : String) (before db : Db) (committed : List JobRequest)
    (run : PipelineRun) (now event_id : ℕ) (job : JobRequest)
    → Scheduled before
    → Scheduled db
    → Holds ScheduledAfter (insert_job request run_key before db committed run now event_id job)
unfolding insert_job
insert_job-Scheduled request run_key before db committed run now event_id job v w =
    elim (Option-cases (
      get_by_idempotency_key request.client_id request.idempotency_key
        (before.jobs ++ committed))) [
          | inl n ↦ rw (insert_job, n) w
          | inr (winner, e) ↦
              rw (insert_job, e)
                (Holds-bind ScheduledAfter (validate_replay request run_key db.runs winner) _
                  λ u _. v)
        ]

abbrev Served : Db × PipelineRun × Status × Bool → Type 0
Served (db, run, status, cache_hit) = Scheduled db

-- A queued run within its retention is served by the creation of its stages.
serve_queued-Scheduled :
    (settings : Settings) (around : Surroundings) (pipeline : PipelineDefinition)
    (run : PipelineRun) (db : Db)
    → run.status ≡ Status.queued
    → ltb around.now run.expires_at ≡ true
    → ((db' : Db)
        → ensure_stages settings around.stage_ids around.now run pipeline false db ≡ ok db'
        → Scheduled db')
    → Holds Served (serve settings around pipeline run db)
unfolding serve is_cache_hit
serve_queued-Scheduled settings around pipeline run db queued live created =
    rw (serve, is_cache_hit, queued, live)
      (Holds-bind Served (ensure_stages settings around.stage_ids around.now run pipeline false db)
        _ λ db' h. created db' h)

serve_new-Scheduled :
    (settings : Settings) (around : Surroundings) (request : Submission) (blob : Blob)
    (name : String) (version : Option String) (db : Db) (runs : List PipelineRun)
    → get_pipeline name version ≡ ok request.pipeline
    → AreDrawn around.stage_ids around.run_id request.pipeline.stages db
    → IsValid settings
    → Scheduled db
    → Holds Served (
        serve settings around request.pipeline
          (new_run settings around request blob (run_key_of around request blob))
          (record db { runs = runs }))
serve_new-Scheduled settings around request blob name version db runs known drawn lasting v =
    serve_queued-Scheduled settings around request.pipeline run (record db { runs = runs }) refl
      (ground (arith, lasting.pipeline_retention))
      λ db' h.
        ensure_stages-Scheduled settings around.stage_ids around.now run name version
          request.pipeline (record db { runs = runs }) known
          (record {
            injective = drawn.injective;
            fresh = drawn.fresh;
            fresh_stage = drawn.fresh_stage;
            fresh_upstream = drawn.fresh_upstream;
            new_run = drawn.new_run;
          })
          v h
  where
    run : PipelineRun
    run = new_run settings around request blob (run_key_of around request blob)

-- How a run that is there may serve a request: from the cache, or, within its retention, as one that
-- runs, or that is queued and has its stages.
abbrev pub IsGoingOn : Surroundings → PipelineDefinition → Db → PipelineRun → Type 0
IsGoingOn around pipeline db run =
    (is_cache_hit around.store around.now run pipeline db ≡ true)
    ⊎ (((is_running run.status ≡ true)
          ⊎ ((run.status ≡ Status.queued) × HasStages run.id pipeline db))
        × (ltb around.now run.expires_at ≡ true))

serve_going_on-Scheduled :
    (settings : Settings) (around : Surroundings) (pipeline : PipelineDefinition) (db : Db)
    (run : PipelineRun)
    → IsGoingOn around pipeline db run
    → Scheduled db
    → Holds Served (serve settings around pipeline run db)
unfolding serve extend_cached
serve_going_on-Scheduled settings around pipeline db run on v =
    elim (Bool-cases (is_cache_hit around.store around.now run pipeline db)) [
      | inl hit ↦ rw (serve, hit) v
      | inr miss ↦ elim on [
        | inl hit ↦ cc
        | inr (inr (queued, whole), live) ↦
            serve_queued-Scheduled settings around pipeline run db queued live λ db' h.
              Holds-ok Scheduled _
                (joined-Scheduled settings around.stage_ids around.now run pipeline db whole v) h
        | inr (inl running, live) ↦
            let active : is_active run.status ≡ true = ground arith in
            let waiting : is_queued run.status ≡ false = ground arith in
            rw (serve, miss, active, live, waiting) v
      ]
    ]

submit-ScheduledAfter :
    (settings : Settings) (around : Surroundings) (committed : List JobRequest)
    (request : Submission) (name : String) (version : Option String) (db : Db)
    → get_pipeline name version ≡ ok request.pipeline
    → AreDrawn around.stage_ids around.run_id request.pipeline.stages db
    → IsValid settings
    → ((blob : Blob) (run : PipelineRun)
        → source_blob around request db ≡ ok blob
        → find (is_run_of_key (run_key_of around request blob)) db.runs ≡ some run
        → IsGoingOn around request.pipeline db run)
    → Scheduled db
    → Holds ScheduledAfter (submit settings around committed request db)
unfolding submit
submit-ScheduledAfter settings around committed request name version db known drawn lasting going_on
      v =
    Holds-bind ScheduledAfter (source_blob around request db) _ λ blob e.
      elim (Option-cases
        (get_by_idempotency_key request.client_id request.idempotency_key db.jobs)) [
          | inr (job, f) ↦ rw f (
              Holds-bind ScheduledAfter
                (validate_replay request (run_key_of around request blob) db.runs job) _ λ u _. v)
          | inl n ↦
              elim (Option-cases (find (is_run_of_key (run_key_of around request blob)) db.runs)) [
                | inl new ↦
                    rw (n, upsert_run, new)
                      (answered blob
                        (new_run settings around request blob (run_key_of around request blob)) _
                        false
                        (serve_new-Scheduled settings around request blob name version db _ known
                          drawn lasting v))
                | inr (run, found) ↦
                    rw (n, upsert_run, found)
                      (answered blob run db.runs true (
                        serve_going_on-Scheduled settings around request.pipeline db run
                          (going_on blob run e found) v))
              ]
        ]
  where
    -- The insert of the request after a service.
    answered :
        (blob : Blob) (run : PipelineRun) (runs : List PipelineRun) (reused : Bool)
        → Holds Served (serve settings around request.pipeline run (record db { runs = runs }))
        → Holds ScheduledAfter (
            serve settings around request.pipeline run (record db { runs = runs })
            >>= λ (served, run', status, cache_hit).
                insert_job request
                  (run_key_of around request blob)
                  db
                  served
                  committed
                  run'
                  around.now
                  around.event_id
                  (new_job around request run' status cache_hit reused))
    answered blob run runs reused w =
        Holds-bind ScheduledAfter
          (serve settings around request.pipeline run (record db { runs = runs })) _
          λ r h.
            insert_job-Scheduled request (run_key_of around request blob) db r.0 committed r.1
              around.now around.event_id _ v (Holds-ok Served _ w h)

-- Under valid settings, a submission for a pipeline of the catalogue that returns keeps the stage
-- table scheduled (keys tell stages apart, dependencies have no cycle, a blocked stage waits for one
-- that has not completed, and every other stage has all that it depends on), if the UUIDs that it
-- draws are new and the run that has its run key, if there is one, serves it from the cache, or is
-- within its retention and running, or queued with all its stages and dependencies in the tables.
pub submit-Scheduled :
    (settings : Settings) (around : Surroundings) (committed : List JobRequest)
    (request : Submission) (name : String) (version : Option String) (db : Db) {db' : Db}
    {result : JobSubmissionResult}
    → get_pipeline name version ≡ ok request.pipeline
    → AreDrawn around.stage_ids around.run_id request.pipeline.stages db
    → IsValid settings
    → ((blob : Blob) (run : PipelineRun)
        → source_blob around request db ≡ ok blob
        → find (is_run_of_key (run_key_of around request blob)) db.runs ≡ some run
        → IsGoingOn around request.pipeline db run)
    → Scheduled db
    → submit settings around committed request db ≡ ok (db', result)
    → Scheduled db'
submit-Scheduled settings around committed request name version db known drawn valid going_on v =
    Holds-ok ScheduledAfter _ (
      submit-ScheduledAfter settings around committed request name version db known drawn valid
        going_on v)
