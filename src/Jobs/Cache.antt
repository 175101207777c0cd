-- ===== src/Jobs/Cache.antt =====
-- app/services/jobs.py, JobService._is_cache_hit: a completed run whose outputs are all still there.
use media_engine.Prelude.{
  ℕ, String, Bool, true, false, Option, none, some, List, [], ◌∷◌, ◌&&◌, ◌==◌, ltb, if◌then◌else◌,
  any, contains, find, is_subset, max, update_where,
}
use media_engine.Domain.Pipelines.{PipelineDefinition, required_artifacts}
use media_engine.Models.{is_completed, BlobState, Blob, Artifact, PipelineRun, Db}
use media_engine.Workers.Leases.{save_run}
use media_engine.Workers.Publication.{ObjectStore}
use media_engine.Workers.StageGraph.{of_run}

abbrev pub is_available : BlobState → Bool
is_available BlobState.available = true
is_available _ = false

-- `store.exists(key)`
abbrev pub exists_object : ObjectStore → String → Bool
exists_object store key = elim (store key) [ none ↦ false | some info ↦ true ]

abbrev pub find_blob : ℕ → List Blob → Option Blob
find_blob blob_id = find (λ (row : Blob). row.id == blob_id)

-- The rows of `artifact` that the query selects, beside the join.
abbrev pub is_output : ℕ → List String → Artifact → Bool
is_output run_id required artifact =
    of_run run_id artifact && contains artifact.artifact_type required

-- The test on an artifact and its blob.
abbrev pub is_live : ObjectStore → ℕ → Artifact → Blob → Bool
is_live store now artifact blob =
    ltb now artifact.expires_at
    && is_available blob.state
    && ltb now blob.expires_at
    && exists_object store blob.object_key

abbrev pub has_live_blob : ObjectStore → ℕ → List Blob → Artifact → Bool
has_live_blob store now blobs artifact = elim (find_blob artifact.blob_id blobs) [
  | none ↦ false
  | some blob ↦ is_live store now artifact blob
]

-- `available_types`
unfoldable pub available_types :
    ObjectStore → ℕ → ℕ → List String → List Blob → List Artifact → List String
unfolding contains find
available_types store now run_id required blobs [] = []
available_types store now run_id required blobs (artifact ∷ artifacts) =
    let rest = available_types store now run_id required blobs artifacts in
    if is_output run_id required artifact && has_live_blob store now blobs artifact
    then artifact.artifact_type ∷ rest
    else rest

unfoldable pub is_cache_hit : ObjectStore → ℕ → PipelineRun → PipelineDefinition → Db → Bool
unfolding available_types is_subset
is_cache_hit store now run pipeline db =
    is_completed run.status
    && ltb now run.expires_at
    && is_subset (required_artifacts pipeline)
        (available_types store now run.id (required_artifacts pipeline) db.blobs db.artifacts)

abbrev pub extended_run : ℕ → PipelineRun → PipelineRun
extended_run extend_to run = record run { expires_at = max run.expires_at extend_to }

-- What a cache hit writes.
unfoldable pub extend_cached : ℕ → PipelineRun → PipelineDefinition → Db → Db
unfolding update_where any contains save_run
extend_cached extend_to run pipeline db =
    let is_row = is_output run.id (required_artifacts pipeline) in
    record db {
      runs = save_run (extended_run extend_to run) db.runs;
      artifacts =
          update_where is_row
            (λ (artifact : Artifact). record artifact {
              expires_at = max artifact.expires_at extend_to;
            })
            db.artifacts;
      blobs =
          update_where
            (λ (blob : Blob).
              any (λ (artifact : Artifact). is_row artifact && artifact.blob_id == blob.id)
                db.artifacts)
            (λ (blob : Blob). record blob { expires_at = max blob.expires_at extend_to }) db.blobs;
    }
