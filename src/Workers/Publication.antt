-- ===== src/Workers/Publication.antt =====
-- app/services/workers.py, the loop of WorkerService.complete that checks and records artifacts.
use media_engine.Prelude.{
  ℕ, String, Bool, false, Option, none, some, List, [], ◌∷◌, ◌++◌, ◌&&◌, not, ◌==◌, ◌=ₛ◌,
  if◌then◌else◌, any, find, update_where, max, Exception, Result, ok, raised, ◌>>=◌, ◌>>◌, raise_if,
}
use media_engine.Domain.Content.{content_addressed_key}
use media_engine.Models.{BlobState, StageRun, Blob, Artifact, Db}
use media_engine.Workers.Contract.{ArtifactCompletion}

-- What `stat` reports of a stored object: its size, and the `sha256` entry of its metadata.
pub record ObjectInfo : Type 0 where
  pub size_bytes : ℕ
  pub sha256 : Option String

-- The bucket, as the call finds it.
abbrev pub ObjectStore : Type 0
ObjectStore = String → Option ObjectInfo

-- The UUIDs that a call draws, each by what it is drawn for.
pub record NewIds : Type 0 where
  pub blob_ids : String → ℕ
  pub artifact_ids : String → ℕ
  pub event_ids : ℕ → ℕ

abbrev pub names_hash : Option String → String → Bool
names_hash none sha256 = false
names_hash (some recorded) sha256 = recorded =ₛ sha256

-- The three checks of a reported artifact against the bucket.
abbrev pub check_object : ArtifactCompletion → Option ObjectInfo → Result (Unit {0})
check_object artifact none = raised Exception.artifact_rejected
check_object artifact (some info) =
    raise_if (not (info.size_bytes == artifact.size_bytes)) Exception.artifact_rejected
    >> raise_if (not (names_hash info.sha256 artifact.sha256)) Exception.artifact_rejected

abbrev new_blob : NewIds → ℕ → String → ArtifactCompletion → Blob
new_blob ids expires_at key artifact = record {
  id = ids.blob_ids artifact.sha256;
  sha256 = artifact.sha256;
  size_bytes = artifact.size_bytes;
  media_type = artifact.media_type;
  object_key = key;
  state = BlobState.available;
  expires_at = expires_at;
  expired_at = none;
}

abbrev refreshed_blob : ℕ → String → ArtifactCompletion → Blob → Blob
refreshed_blob expires_at key artifact blob = record blob {
  size_bytes = artifact.size_bytes;
  media_type = artifact.media_type;
  object_key = key;
  state = BlobState.available;
  expires_at = max blob.expires_at expires_at;
  expired_at = none;
}

abbrev pub has_sha : String → Blob → Bool
has_sha sha256 blob = blob.sha256 =ₛ sha256

-- `insert(Blob) … on_conflict_do_update … returning(Blob.id)`
unfoldable pub upsert_blob : NewIds → ℕ → String → ArtifactCompletion → List Blob → List Blob × ℕ
unfolding find update_where
upsert_blob ids expires_at key artifact blobs = elim (find (has_sha artifact.sha256) blobs) [
  | none ↦ (blobs ++ new_blob ids expires_at key artifact ∷ [], ids.blob_ids artifact.sha256)
  | some blob ↦ (
    update_where (has_sha artifact.sha256) (refreshed_blob expires_at key artifact) blobs,
    blob.id,
  )
]

-- The unique key `uq_artifact_run_type`.
abbrev pub has_run_type : ℕ → String → Artifact → Bool
has_run_type run_id type row = row.pipeline_run_id == run_id && row.artifact_type =ₛ type

unfoldable pub upsert_artifact :
    NewIds → ℕ → StageRun → ℕ → ArtifactCompletion → List Artifact → List Artifact
unfolding any update_where
upsert_artifact ids expires_at stage blob_id artifact rows =
    if any (has_run_type stage.pipeline_run_id artifact.artifact_type) rows
    then update_where (has_run_type stage.pipeline_run_id artifact.artifact_type)
        (λ row. record row {
          producer_stage_run_id = stage.id;
          blob_id = blob_id;
          format = artifact.format;
          schema_version = artifact.schema_version;
          expires_at = expires_at;
        })
        rows
    else rows
      ++ record {
        id = ids.artifact_ids artifact.artifact_type;
        pipeline_run_id = stage.pipeline_run_id;
        producer_stage_run_id = stage.id;
        blob_id = blob_id;
        artifact_type = artifact.artifact_type;
        format = artifact.format;
        schema_version = artifact.schema_version;
        expires_at = expires_at;
      }
        ∷ []

-- One round of the loop over the reported artifacts.
unfoldable pub publish : ObjectStore → NewIds → ℕ → StageRun → ArtifactCompletion → Db → Result Db
unfolding content_addressed_key upsert_blob upsert_artifact
publish store ids expires_at stage artifact db = content_addressed_key artifact.sha256 >>= λ key.
    check_object artifact (store key)
    >> let (blobs, blob_id) = upsert_blob ids expires_at key artifact db.blobs in
      ok (record db {
        blobs = blobs;
        artifacts = upsert_artifact ids expires_at stage blob_id artifact db.artifacts;
      })

unfoldable pub publish_all :
    ObjectStore → NewIds → ℕ → StageRun → List ArtifactCompletion → Db → Result Db
publish_all store ids expires_at stage [] db = ok db
publish_all store ids expires_at stage (artifact ∷ artifacts) db =
    publish store ids expires_at stage artifact db
    >>= publish_all store ids expires_at stage artifacts
