-- ===== src/Jobs/Requests.antt =====
-- app/services/jobs.py: what a submission asks for, its source, its key, and the check of a replay.
use media_engine.Prelude.{
  ℕ, String, Bool, true, false, Option, none, some, List, ◌&&◌, ◌||◌, not, ◌==◌, ◌=ₛ◌, leb, find,
  or_else, Exception, Result, ok, ◌>>=◌, ◌>>◌, raise_if, or_raise,
}
use media_engine.Domain.Pipelines.{Options, PipelineDefinition}
use media_engine.Domain.Content.{normalized_hex}
use media_engine.Models.{Blob, Asset, PipelineRun, JobRequest, Db}
use media_engine.Workers.Publication.{ObjectStore}
use media_engine.Jobs.Cache.{is_available, exists_object, find_blob}

-- The document whose digest is the key of a run, app/domain/content.py, pipeline_run_key.
pub record RunKeyPayload : Type 0 where
  pub options : Options
  pub pipeline_name : String
  pub pipeline_version : String
  pub processor_versions : List (String × String)
  pub schema_version : String
  pub source_sha256 : String

-- A stored digest is a text of hexadecimal digits, of which `.lower()` is the normalized one.
abbrev pub lower_digest : String → String
lower_digest sha256 = or_else (normalized_hex sha256) sha256

-- What a submission reads from outside: the bucket, the SHA-256 digest of a document's canonical
-- JSON, the time, and the UUIDs that it draws.
pub record Surroundings : Type 0 where
  pub store : ObjectStore
  pub digest : RunKeyPayload → String
  pub now : ℕ
  pub run_id : ℕ
  pub job_id : ℕ
  pub event_id : ℕ
  pub stage_ids : String → ℕ

pub record Submission : Type 0 where
  pub client_id : ℕ
  pub asset_id : ℕ
  pub pipeline : PipelineDefinition
  pub options : Options
  pub client_job_id : Option String
  pub callback_url : Option String
  pub webhook_endpoint_id : Option ℕ
  pub idempotency_key : Option String

pub record JobSubmissionResult : Type 0 where
  pub job : JobRequest
  pub idempotent_replay : Bool

unfoldable pub run_key_of : Surroundings → Submission → Blob → String
unfolding normalized_hex
run_key_of around request blob = around.digest (record {
  options = request.options;
  pipeline_name = request.pipeline.name;
  pipeline_version = request.pipeline.version;
  processor_versions = request.pipeline.processor_versions;
  schema_version = request.pipeline.schema_version;
  source_sha256 = lower_digest blob.sha256;
})

abbrev pub is_asset_of : ℕ → ℕ → Asset → Bool
is_asset_of client_id asset_id row = row.id == asset_id && row.client_id == client_id

-- The blob of an asset that can still be processed.
unfoldable pub source_blob : Surroundings → Submission → Db → Result Blob
unfolding find
source_blob around request db =
    or_raise (find (is_asset_of request.client_id request.asset_id) db.assets)
      Exception.asset_not_found
    >>= λ asset.
        raise_if (leb asset.expires_at around.now) Exception.asset_unavailable
        >> (or_raise (find_blob asset.blob_id db.blobs) Exception.asset_unavailable >>= λ blob.
            raise_if
              (not (is_available blob.state)
                || leb blob.expires_at around.now
                || not (exists_object around.store blob.object_key))
              Exception.asset_unavailable
            >> ok blob)

-- Equality of columns that may be null, where a null is not equal to anything.
abbrev pub is_text : Option String → String → Bool
is_text none text = false
is_text (some t) text = t =ₛ text

abbrev pub same_endpoint : Option ℕ → Option ℕ → Bool
same_endpoint none none = true
same_endpoint (some a) (some b) = a == b
same_endpoint _ _ = false

abbrev pub is_request_of : ℕ → String → JobRequest → Bool
is_request_of client_id key job = job.client_id == client_id && is_text job.idempotency_key key

-- `_get_by_idempotency_key`
unfoldable pub get_by_idempotency_key : ℕ → Option String → List JobRequest → Option JobRequest
unfolding find
get_by_idempotency_key client_id none jobs = none
get_by_idempotency_key client_id (some key) jobs = find (is_request_of client_id key) jobs

-- `job.pipeline_run.run_key`; the run of a request is there, by its foreign key.
abbrev pub has_run_key : Option PipelineRun → String → Bool
has_run_key none run_key = false
has_run_key (some run) run_key = run.run_key =ₛ run_key

-- `_validate_replay`
unfoldable pub validate_replay :
    Submission → String → List PipelineRun → JobRequest → Result (Unit {0})
unfolding find
validate_replay request run_key runs job =
    raise_if
      (not (job.asset_id == request.asset_id)
        || not
            (has_run_key (find (λ (run : PipelineRun). run.id == job.pipeline_run_id) runs) run_key)
        || not (same_endpoint job.webhook_endpoint_id request.webhook_endpoint_id))
      Exception.idempotency_conflict
