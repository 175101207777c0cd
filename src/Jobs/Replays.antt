-- ===== src/Jobs/Replays.antt =====
-- A submission of app/services/jobs.py that is sent again under its idempotency key.
use media_engine.Prelude.{
  ℕ, String, Bool, true, ◌≡◌, refl, ◌⊎◌, inl, inr, Option, none, some, List, [], ◌∷◌, ◌++◌, ◌==◌,
  ==_iff, find, str_eq_refl, Option-cases, subst⁻¹, Exception, ok, raised, ◌>>=◌, Holds, Holds-bind,
  Holds-ok,
}
use mathlib.Core.List.{append-nil}
use media_engine.Models.{Status, Blob, PipelineRun, JobRequest, Db}
use media_engine.Settings.{Settings}
use media_engine.Jobs.Submission.{new_run, upsert_run, serve, new_job, insert_job, submit}
use media_engine.Jobs.Requests.{
  Surroundings, Submission, JobSubmissionResult, run_key_of, source_blob, is_request_of,
  has_run_key, same_endpoint, get_by_idempotency_key, validate_replay,
}
use media_engine.Jobs.Serving.{find-append_none, KeepsSources, Served, serve-Served}
use media_engine.Jobs.Sources.{IsKeyed, upserted, SourceOf, source_found, source_again}

keyed_append :
    (client_id : ℕ) (k : Option String) (key : String) (jobs : List JobRequest) (job : JobRequest)
    → k ≡ some key
    → get_by_idempotency_key client_id k jobs ≡ none
    → job.client_id ≡ client_id
    → job.idempotency_key ≡ k
    → get_by_idempotency_key client_id k (jobs ++ job ∷ []) ≡ some job
unfolding get_by_idempotency_key
keyed_append client_id none key jobs job h n c i = cc
keyed_append client_id (some k) key jobs job h n c i =
    find-append_none (is_request_of client_id k) jobs job n
      (rw (c, i, (==_iff client_id client_id).1 refl) (str_eq_refl k))

same_endpoint_refl : (e : Option ℕ) → same_endpoint e e ≡ true
same_endpoint_refl none = refl
same_endpoint_refl (some n) = (==_iff n n).1 refl

validated :
    (request : Submission) (run_key : String) (runs : List PipelineRun) (job : JobRequest)
    → job.asset_id ≡ request.asset_id
    → has_run_key (find (λ (run : PipelineRun). run.id == job.pipeline_run_id) runs) run_key ≡ true
    → job.webhook_endpoint_id ≡ request.webhook_endpoint_id
    → validate_replay request run_key runs job ≡ ok tt
unfolding validate_replay
validated request run_key runs job a r e =
    rw
      (
        a,
        (==_iff request.asset_id request.asset_id).1 refl,
        r,
        e,
        same_endpoint_refl request.webhook_endpoint_id,
      )
      refl

-- What a submission that returns leaves for the next one under its key.
Answered : Surroundings → Submission → Db → Db × JobSubmissionResult → Type 0
Answered around request db (db', result) =
    (blob : Blob) × SourceOf request db blob
    × KeepsSources db db'
    × (get_by_idempotency_key request.client_id request.idempotency_key db'.jobs ≡ some result.job)
    × (validate_replay request (run_key_of around request blob) db'.runs result.job ≡ ok tt)

insert_job-Answered :
    (around : Surroundings) (request : Submission) (key : String) (db served : Db) (blob : Blob)
    (run : PipelineRun) (status : Status) (hit reused : Bool)
    → request.idempotency_key ≡ some key
    → SourceOf request db blob
    → get_by_idempotency_key request.client_id request.idempotency_key db.jobs ≡ none
    → Served db (run_key_of around request blob) (served, run, status, hit)
    → Holds (Answered around request db) (
        insert_job request
          (run_key_of around request blob)
          db
          served
          []
          run
          around.now
          around.event_id
          (new_job around request run status hit reused))
unfolding insert_job Answered
insert_job-Answered around request key db served blob run status hit reused k source n
      (keeps, found) =
    rw (insert_job, Holds, append-nil db.jobs, n)
      (
        blob,
        source,
        keeps,
        subst⁻¹
            (λ js.
              get_by_idempotency_key request.client_id request.idempotency_key
                (js ++ new_job around request run status hit reused ∷ [])
              ≡ some (new_job around request run status hit reused))
            (append-nil db.jobs)
            (keyed_append request.client_id request.idempotency_key key db.jobs
              (new_job around request run status hit reused) k n refl refl),
        validated request (run_key_of around request blob) served.runs
            (new_job around request run status hit reused) refl found refl,
      )

submit-Answered :
    (settings : Settings) (around : Surroundings) (request : Submission) (key : String) (db : Db)
    → request.idempotency_key ≡ some key
    → IsKeyed db.runs around.run_id
    → Holds (Answered around request db) (submit settings around [] request db)
unfolding submit Answered
submit-Answered settings around request key db k keyed =
    Holds-bind (Answered around request db) (source_blob around request db) _ λ blob e.
      let source = Holds-ok (SourceOf request db) _ (source_found around request db) e in
      elim (Option-cases
        (get_by_idempotency_key request.client_id request.idempotency_key db.jobs)) [
          | inr (job, n) ↦ rw n (
              Holds-bind (Answered around request db)
                (validate_replay request (run_key_of around request blob) db.runs job) _
                λ u v. (blob, source, (refl, λ id b h. (b, h, refl)), n, v))
          | inl n ↦ rw n (served blob source n)
        ]
  where
    served :
        (blob : Blob)
        → SourceOf request db blob
        → get_by_idempotency_key request.client_id request.idempotency_key db.jobs ≡ none
        → let candidate = new_run settings around request blob (run_key_of around request blob) in
          let (runs, run, run_reused) = upsert_run candidate db.runs in
          Holds (Answered around request db) (
            serve settings around request.pipeline run (record db { runs = runs })
            >>= λ (served, run', status, cache_hit).
                insert_job request
                  (run_key_of around request blob)
                  db
                  served
                  []
                  run'
                  around.now
                  around.event_id
                  (new_job around request run' status cache_hit run_reused))
    served blob source n =
        let candidate = new_run settings around request blob (run_key_of around request blob) in
        let (runs, run, run_reused) = upsert_run candidate db.runs in
        let (found, same) = upserted candidate db.runs keyed in
        Holds-bind (Answered around request db)
          (serve settings around request.pipeline run (record db { runs = runs })) _
          λ (d, run', status, cache_hit) e.
            insert_job-Answered around request key db d blob run' status cache_hit run_reused k
              source n
              (Holds-ok (Served (record db { runs = runs }) (run_key_of around request blob)) _
                (serve-Served settings around request.pipeline run (record db { runs = runs })
                  (run_key_of around request blob) same found)
                e)

-- A submission with an idempotency key that has returned (no other transaction having taken the key
-- meanwhile, in a database where run keys tell runs apart and the drawn one is new) can be sent
-- again at any time, with other times, UUIDs and concurrent transactions: the second call raises
-- AssetUnavailable, when the source has expired or its object is gone, or it returns the job of the
-- first call as a replay. Either way it writes nothing.
pub submit_again :
    (settings : Settings) (around around' : Surroundings) (committed : List JobRequest)
    (request : Submission) (key : String) (db db' : Db) (result : JobSubmissionResult)
    → request.idempotency_key ≡ some key
    → around'.digest ≡ around.digest
    → IsKeyed db.runs around.run_id
    → submit settings around [] request db ≡ ok (db', result)
    → (submit settings around' committed request db' ≡ raised Exception.asset_unavailable)
      ⊎ (submit settings around' committed request db'
          ≡ ok (db', record { job = result.job; idempotent_replay = true }))
unfolding submit Answered
submit_again settings around around' committed request key db db' result k d keyed h =
    let (blob, source, keeps, found, valid) =
      Holds-ok (Answered around request db) _
        (submit-Answered settings around request key db k keyed) h in
    elim (source_again around' request db db' blob source keeps) [
      | inl gone ↦ inl (rw gone refl)
      | inr (blob', there, same) ↦
          let valid' =
            subst⁻¹ (λ t. validate_replay request t db'.runs result.job ≡ ok tt)
              (same_key blob' blob same) valid in
          inr (rw (there, found, valid') refl)
    ]
  where
    same_key :
        (b b' : Blob)
        → b.sha256 ≡ b'.sha256
        → run_key_of around' request b ≡ run_key_of around request b'
    same_key b b' e = unfold run_key_of in rw (d, e) refl
