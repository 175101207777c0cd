-- ===== src/Examples/Jobs.antt =====
-- The theorems on submissions at the sample database, with a source that is there.
use media_engine.Prelude.{
  ℕ, String, true, false, none, some, [], ◌∷◌, ◌≡◌, ◌⊎◌, refl, mem-one, ok, raised, Exception,
  arith, sym, ◌∙◌, ap, ◌↔◌, ltb, contains,
}
use media_engine.Domain.Catalog.{transcode_pipeline}
use media_engine.Domain.Pipelines.{PipelineStageDefinition, required_artifacts}
use media_engine.Models.{Status, values, is_completed, BlobState, Blob, PipelineRun, JobRequest, Db}
use media_engine.Jobs.Stages.{new_stage}
use media_engine.Jobs.Cache.{is_cache_hit}
use media_engine.Jobs.Outputs.{Output, is_cache_hit-Output}
use media_engine.Jobs.Submission.{submit, new_run, new_job}
use media_engine.Jobs.Requests.{Surroundings, Submission}
use media_engine.Jobs.Replays.{submit_again}
use media_engine.Jobs.Sources.{IsKeyed}
use media_engine.Samples.{settings, probe_stage, scene_stage, run, job, db}

abbrev pub source : Blob
source = record {
  id = 100;
  sha256 = "ab";
  size_bytes = 10;
  media_type = none;
  object_key = "source";
  state = BlobState.available;
  expires_at = 500;
  expired_at = none;
}

abbrev pub stocked : Db
stocked = record db {
  assets = record { id = 60; client_id = 3; blob_id = 100; expires_at = 400 } ∷ [];
  blobs = source ∷ [];
}

abbrev pub around : ℕ → Surroundings
around now = record {
  store = λ key. some (record { size_bytes = 10; sha256 = none });
  digest = λ payload. "digest";
  now = now;
  run_id = 2;
  job_id = 51;
  event_id = 451;
  stage_ids = λ name. 21;
}

abbrev pub request : Submission
request = record {
  client_id = 3;
  asset_id = 60;
  pipeline = transcode_pipeline;
  options = [];
  client_job_id = none;
  callback_url = none;
  webhook_endpoint_id = none;
  idempotency_key = some "first";
}

abbrev transcode_definition : PipelineStageDefinition
transcode_definition = record {
  name = "transcode";
  processor = "transcode";
  required_capabilities = ("pipelines", "transcode" ∷ []) ∷ [];
  provider_selection = none;
  depends_on = [];
  outputs = [];
}

abbrev candidate : PipelineRun
candidate = new_run settings (around 100) request source "digest"

abbrev first_job : JobRequest
first_job = new_job (around 100) request candidate Status.queued false false

stored : Db
stored = record stocked {
  stages =
      probe_stage
      ∷ scene_stage
      ∷ new_stage 21 100 2 transcode_definition (("pipelines", values ("transcode" ∷ [])) ∷ [])
      ∷ [];
  runs = run ∷ candidate ∷ [];
  jobs = job ∷ first_job ∷ [];
}

stocked-IsKeyed : IsKeyed stocked.runs 2
stocked-IsKeyed = record {
  unique = λ r s m n e. mem-one m ∙ sym (mem-one n);
  fresh = λ r m e. absurd (other r (mem-one m) e);
}
  where
    other : (r : PipelineRun) → r ≡ run → r.id ≡ 2 → ⊥
    other r h e = ground (arith, ap (λ (x : PipelineRun). x.id) h)

submit_again_example :
    (submit settings (around 200) [] request stored ≡ raised Exception.asset_unavailable)
    ⊎ (submit settings (around 200) [] request stored
        ≡ ok (stored, record { job = first_job; idempotent_replay = true }))
unfolding submit stored
submit_again_example =
    submit_again settings (around 100) (around 200) [] request "first" stocked stored
      (record { job = first_job; idempotent_replay = false }) refl refl stocked-IsKeyed refl

is_cache_hit-Output_example :
    (is_cache_hit (λ key. none) 100 candidate transcode_pipeline stored ≡ true) ↔ (
      (is_completed candidate.status ≡ true)
      × (ltb 100 candidate.expires_at ≡ true)
      × ((type : String)
          → contains type (required_artifacts transcode_pipeline) ≡ true
          → Output
              (λ key. none)
              100
              2
              (required_artifacts transcode_pipeline)
              stored.blobs
              type
              stored.artifacts))
is_cache_hit-Output_example =
    is_cache_hit-Output (λ key. none) 100 candidate transcode_pipeline stored
