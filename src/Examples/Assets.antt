-- ===== src/Examples/Assets.antt =====
-- The theorem on ingests at a content that was swept, and that is uploaded again.
use media_engine.Prelude.{false, none, some, [], ◌∷◌, ◌≡◌, refl, sym, ◌∙◌, mem-one, arith, ok}
use media_engine.Domain.Catalog.{transcode_pipeline}
use media_engine.Models.{BlobState, Blob, Db}
use media_engine.Jobs.Requests.{Surroundings, Submission, source_blob}
use media_engine.Workers.Publication.{ObjectStore}
use media_engine.Assets.Ingest.{
  StagedUpload, put_object, restored_blob, Ingest, new_asset, ingest_upload,
}
use media_engine.Assets.Submitting.{ingest_upload-source_blob}
use media_engine.Samples.{settings, db}

abbrev swept : Blob
swept = record {
  id = 100;
  sha256 = "aaaaaaaaaaaaaaaaaaaaaaaaaaaaaaaaaaaaaaaaaaaaaaaaaaaaaaaaaaaaaaaa";
  size_bytes = 10;
  media_type = none;
  object_key = "blobs/sha256/aa/aaaaaaaaaaaaaaaaaaaaaaaaaaaaaaaaaaaaaaaaaaaaaaaaaaaaaaaaaaaaaaaa";
  state = BlobState.expired;
  expires_at = 50;
  expired_at = some 60;
}

abbrev swept_db : Db
swept_db = record db { blobs = swept ∷ [] }

abbrev empty_store : ObjectStore
empty_store key = none

abbrev upload : Ingest
upload = record {
  client_id = 3;
  media_type = some "video/mp4";
  sha256 = swept.sha256;
  chunks = 6 ∷ 4 ∷ 0 ∷ [];
  blob_id = 101;
  asset_id = 61;
}

abbrev staged : StagedUpload
staged = record { sha256 = swept.sha256; size_bytes = 10 }

abbrev restored : Blob
restored = restored_blob 86500 swept.object_key (some "video/mp4") staged swept

abbrev full_store : ObjectStore
full_store =
    put_object swept.object_key (record { size_bytes = 10; sha256 = some swept.sha256 }) empty_store

abbrev ingested_db : Db
ingested_db = record swept_db {
  blobs = restored ∷ [];
  assets = new_asset 86500 upload restored ∷ [];
}

abbrev around : Surroundings
around = record {
  store = full_store;
  digest = λ payload. "digest";
  now = 200;
  run_id = 2;
  job_id = 51;
  event_id = 451;
  stage_ids = λ name. 21;
}

abbrev request : Submission
request = record {
  client_id = 3;
  asset_id = 61;
  pipeline = transcode_pipeline;
  options = [];
  client_job_id = none;
  callback_url = none;
  webhook_endpoint_id = none;
  idempotency_key = none;
}

ingest_upload-source_blob_example :
    (blob : Blob) × (source_blob around request ingested_db ≡ ok blob)
    × (blob.sha256 ≡ swept.sha256)
unfolding ingest_upload
ingest_upload-source_blob_example =
    ingest_upload-source_blob settings (some 100) 100 upload empty_store swept_db
      {db' = ingested_db} {store' = full_store}
      {result = record { asset = new_asset 86500 upload restored; duplicate_content = false }}
      around request (λ b c m n e. mem-one m ∙ sym (mem-one n)) (λ b m e. ground (arith, mem-one m))
      (λ a m e. elim m [ ]) refl refl (omega arith) refl refl
