-- ===== src/Assets/Ingest.antt =====
-- app/services/assets.py, AssetService.ingest_upload, with the bucket that it leaves. The time, the
-- drawn UUIDs and the digest of the upload's bytes are arguments.
use media_engine.Prelude.{
  ℕ, String, Bool, true, false, Option, none, some, List, [], ◌∷◌, ◌++◌, ◌&&◌, ◌==◌, ◌=ₛ◌, ◌+◌, ltb,
  max, if◌then◌else◌, find, update_where, Exception, Result, ok, raised, ◌>>=◌, ◌>>◌, raise_if,
}
use media_engine.Models.{BlobState, Blob, Asset, Db}
use media_engine.Settings.{Settings, hours}
use media_engine.Domain.Content.{content_addressed_key}
use media_engine.Workers.Publication.{ObjectInfo, ObjectStore, has_sha}
use media_engine.Jobs.Cache.{is_available, exists_object}

pub record StagedUpload : Type 0 where
  pub sha256 : String
  pub size_bytes : ℕ

-- The loop of `_stage_upload` over the sizes of the chunks, with the bytes so far.
unfoldable pub stage_chunks : Option ℕ → ℕ → List ℕ → Result ℕ
stage_chunks limit total [] = ok total
stage_chunks limit total (chunk ∷ chunks) =
    let rest = stage_chunks limit (total + chunk) chunks in
    if chunk == 0 then ok total else elim limit [
      | none ↦ rest
      | some bound ↦ if ltb bound (total + chunk) then raised Exception.upload_too_large else rest
    ]

-- `_stage_upload`
unfoldable pub stage_upload : Option ℕ → String → List ℕ → Result StagedUpload
unfolding stage_chunks
stage_upload max_upload_bytes sha256 chunks = stage_chunks max_upload_bytes 0 chunks >>= λ size.
    raise_if (size == 0) Exception.value_error >> ok (record { sha256 = sha256; size_bytes = size })

-- `store.upload_file`: the object and its metadata, over what the key held.
abbrev pub put_object : String → ObjectInfo → ObjectStore → ObjectStore
put_object key info store k = if k =ₛ key then some info else store k

-- Content that is there already, and is not about to be swept.
abbrev pub is_duplicate : ObjectStore → ℕ → Blob → Bool
is_duplicate store now blob =
    is_available blob.state && ltb now blob.expires_at && exists_object store blob.object_key

abbrev pub extended_blob : ℕ → Blob → Blob
extended_blob expires_at blob = record blob {
  expires_at = if ltb blob.expires_at expires_at then expires_at else blob.expires_at;
}

-- The row that the upsert inserts.
abbrev pub ingested_blob : ℕ → ℕ → String → Option String → StagedUpload → Blob
ingested_blob id expires_at key media_type staged = record {
  id = id;
  sha256 = staged.sha256;
  size_bytes = staged.size_bytes;
  media_type = media_type;
  object_key = key;
  state = BlobState.available;
  expires_at = expires_at;
  expired_at = none;
}

-- `ON CONFLICT (sha256) DO UPDATE`
abbrev pub restored_blob : ℕ → String → Option String → StagedUpload → Blob → Blob
restored_blob expires_at key media_type staged blob = record blob {
  size_bytes = staged.size_bytes;
  media_type = media_type;
  object_key = key;
  state = BlobState.available;
  expires_at = max blob.expires_at expires_at;
  expired_at = none;
}

-- The rows after the decision on the content, the bucket, and the row of the content.
pub record Stored : Type 0 where
  pub blobs : List Blob
  pub store : ObjectStore
  pub blob : Blob
  pub duplicate_content : Bool

unfoldable pub store_content :
    ObjectStore
    → ℕ
    → ℕ
    → ℕ
    → String
    → Option String
    → StagedUpload
    → List Blob
    → Option Blob
    → Stored
unfolding update_where
store_content store now expires_at id key media_type staged blobs none = record {
  blobs = blobs ++ ingested_blob id expires_at key media_type staged ∷ [];
  store =
      put_object key (record { size_bytes = staged.size_bytes; sha256 = some staged.sha256 }) store;
  blob = ingested_blob id expires_at key media_type staged;
  duplicate_content = false;
}
store_content store now expires_at id key media_type staged blobs (some existing) =
    if is_duplicate store now existing
    then record {
      blobs =
          update_where (λ row. row.id == existing.id) (λ _. extended_blob expires_at existing)
            blobs;
      store = store;
      blob = extended_blob expires_at existing;
      duplicate_content = true;
    }
    else record {
      blobs =
          update_where (λ row. row.id == existing.id)
            (λ _. restored_blob expires_at key media_type staged existing) blobs;
      store =
          put_object key (record { size_bytes = staged.size_bytes; sha256 = some staged.sha256 })
            store;
      blob = restored_blob expires_at key media_type staged existing;
      duplicate_content = false;
    }

pub record AssetIngestResult : Type 0 where
  pub asset : Asset
  pub duplicate_content : Bool

-- What `ingest_upload` gets of an upload, and the UUIDs that it draws.
pub record Ingest : Type 0 where
  pub client_id : ℕ
  pub media_type : Option String
  pub sha256 : String
  pub chunks : List ℕ
  pub blob_id : ℕ
  pub asset_id : ℕ

abbrev pub new_asset : ℕ → Ingest → Blob → Asset
new_asset expires_at ingest blob = record {
  id = ingest.asset_id;
  client_id = ingest.client_id;
  blob_id = blob.id;
  expires_at = expires_at;
}

unfoldable pub ingest_upload :
    Settings
    → Option ℕ
    → ℕ
    → Ingest
    → ObjectStore
    → Db
    → Result (Db × ObjectStore × AssetIngestResult)
unfolding stage_upload content_addressed_key store_content find
ingest_upload settings max_upload_bytes now ingest store db =
    stage_upload max_upload_bytes ingest.sha256 ingest.chunks >>= λ staged.
    content_addressed_key staged.sha256 >>= λ key.
    let expires_at = now + hours settings.asset_retention_hours in
    let stored =
      store_content store now expires_at ingest.blob_id key ingest.media_type staged db.blobs
        (find (has_sha staged.sha256) db.blobs) in
    let asset = new_asset expires_at ingest stored.blob in
    ok (
      record db { blobs = stored.blobs; assets = db.assets ++ asset ∷ [] },
      stored.store,
      record { asset = asset; duplicate_content = stored.duplicate_content },
    )
