-- ===== src/Assets/Submitting.antt =====
-- An asset of app/services/assets.py as the source of a submission to app/services/jobs.py.
use media_engine.Prelude.{
  ℕ, String, true, false, Option, none, some, List, [], ◌∷◌, ◌++◌, ◌≡◌, ◌≢◌, ◌≤◌, ◌<◌, ◌+◌, refl,
  ◌∙◌, subst, subst⁻¹, inl, inr, Memᴰ, arith, ◌==◌, leb, not, ◌||◌, Bool-cases, find, find-mem,
  find_holds, find_unique, IsKeyed, saved-IsKeyed, saved-mem, append-IsKeyed, mem-append_last,
  mem-append_cases, update_where, str_eq_iff, str_eq_refl, Exception, ok, raise_if, Holds,
  Holds-bind, Holds-ok,
}
use media_engine.Models.{Blob, Asset, Db}
use media_engine.Settings.{Settings, hours}
use media_engine.Domain.Content.{content_addressed_key}
use media_engine.Workers.Publication.{ObjectInfo, ObjectStore, has_sha}
use media_engine.Jobs.Cache.{is_available, exists_object, find_blob}
use media_engine.Jobs.Requests.{Surroundings, Submission, is_asset_of, source_blob}
use media_engine.Assets.Ingest.{
  StagedUpload, stage_chunks, stage_upload, put_object, is_duplicate, extended_blob, ingested_blob,
  restored_blob, Stored, store_content, AssetIngestResult, Ingest, new_asset, ingest_upload,
}

-- A stored content, found by its key, available until a time, with its object.
record IsUsable (sha256 : String) (expires_at : ℕ) (stored : Stored) : Type 0 where
  found : find_blob stored.blob.id stored.blobs ≡ some stored.blob
  hashed : stored.blob.sha256 ≡ sha256
  available : is_available stored.blob.state ≡ true
  lasting : expires_at ≤ stored.blob.expires_at
  there : exists_object stored.store stored.blob.object_key ≡ true

put_object-exists :
    (key : String) (info : ObjectInfo) (store : ObjectStore)
    → exists_object (put_object key info store) key ≡ true
put_object-exists key info store = rw (exists_object, str_eq_refl key) refl

found_by_id :
    (blob : Blob) (blobs : List Blob)
    → IsKeyed (λ (b : Blob). b.id) blobs
    → Memᴰ blob blobs
    → find_blob blob.id blobs ≡ some blob
found_by_id blob blobs keyed m =
    find_unique (λ (row : Blob). row.id == blob.id) blobs m (ground arith)
      (λ b n h. keyed b blob n m (ground arith))

module _ (blobs : List Blob) (keyed : IsKeyed (λ (b : Blob). b.id) blobs) where
  saved_found :
      (blob blob' : Blob)
      → Memᴰ blob blobs
      → blob'.id ≡ blob.id
      → find_blob blob'.id (update_where (λ row. row.id == blob'.id) (λ _. blob') blobs)
        ≡ some blob'
  saved_found blob blob' m same =
      let (r, n, e) = saved-mem (λ (b : Blob). b.id) blob' blobs m in
      let written : r ≡ blob' = ground arith in
      let rows = update_where (λ (row : Blob). row.id == blob'.id) (λ _. blob') blobs in
      found_by_id blob' rows (saved-IsKeyed (λ (b : Blob). b.id) blob' blobs keyed)
        (subst (λ b. Memᴰ b rows) written n)

  store_content-IsUsable :
      (store : ObjectStore) (now expires_at id : ℕ) (key : String) (media_type : Option String)
      (staged : StagedUpload) (existing : Option Blob)
      → ((b : Blob) → Memᴰ b blobs → b.id ≢ id)
      → find (has_sha staged.sha256) blobs ≡ existing
      → IsUsable staged.sha256 expires_at
          (store_content store now expires_at id key media_type staged blobs existing)
  unfolding store_content
  store_content-IsUsable store now expires_at id key media_type staged none fresh e =
      let blob = ingested_blob id expires_at key media_type staged in
      record {
        found =
            found_by_id blob (blobs ++ blob ∷ [])
              (append-IsKeyed (λ (b : Blob). b.id) blob blobs fresh keyed)
              (mem-append_last blobs blob);
        hashed = refl;
        available = refl;
        lasting = omega arith;
        there = put_object-exists key _ store;
      }
  store_content-IsUsable store now expires_at id key media_type staged (some existing) fresh e =
      let m = find-mem (has_sha staged.sha256) blobs e in
      let sha : existing.sha256 ≡ staged.sha256 =
        (str_eq_iff existing.sha256 staged.sha256).0 (find_holds (has_sha staged.sha256) blobs e) in
      elim (Bool-cases (is_duplicate store now existing)) [
        | inl duplicate ↦
            rw (store_content, duplicate)
              (record {
                found = saved_found existing (extended_blob expires_at existing) m refl;
                hashed = sha;
                available = ground (arith, duplicate);
                lasting = ground arith;
                there = ground (arith, duplicate);
              })
        | inr other ↦
            rw (store_content, other)
              (record {
                found =
                    saved_found existing (restored_blob expires_at key media_type staged existing) m
                      refl;
                hashed = sha;
                available = refl;
                lasting = ground arith;
                there = put_object-exists key _ store;
              })
      ]

-- What an ingest that commits leaves.
abbrev Leaves : Settings → ℕ → Ingest → Db → Db × ObjectStore × AssetIngestResult → Type 0
Leaves settings now ingest db (after, store, result) =
    (stored : Stored) × IsUsable ingest.sha256 (now + hours settings.asset_retention_hours) stored
    × (after.blobs ≡ stored.blobs)
    × (store ≡ stored.store)
    × (after.assets
        ≡ db.assets
          ++ new_asset (now + hours settings.asset_retention_hours) ingest stored.blob ∷ [])

stage_upload-sha256 :
    (limit : Option ℕ) (sha256 : String) (chunks : List ℕ)
    → Holds (λ staged. staged.sha256 ≡ sha256) (stage_upload limit sha256 chunks)
unfolding stage_upload
stage_upload-sha256 limit sha256 chunks =
    Holds-bind (λ (staged : StagedUpload). staged.sha256 ≡ sha256) (stage_chunks limit 0 chunks) _
      λ size _.
        Holds-bind (λ (staged : StagedUpload). staged.sha256 ≡ sha256)
          (raise_if (size == 0) Exception.value_error) _ λ u _. refl

ingest_upload-Leaves :
    (settings : Settings) (limit : Option ℕ) (now : ℕ) (ingest : Ingest) (store : ObjectStore)
    (db : Db)
    → IsKeyed (λ (b : Blob). b.id) db.blobs
    → ((b : Blob) → Memᴰ b db.blobs → b.id ≢ ingest.blob_id)
    → Holds (Leaves settings now ingest db) (ingest_upload settings limit now ingest store db)
unfolding ingest_upload
ingest_upload-Leaves settings limit now ingest store db keyed fresh =
    Holds-bind (Leaves settings now ingest db) (stage_upload limit ingest.sha256 ingest.chunks) _
      λ staged e.
        Holds-bind (Leaves settings now ingest db) (content_addressed_key staged.sha256) _ λ key _.
          let expires_at = now + hours settings.asset_retention_hours in
          let existing = find (has_sha staged.sha256) db.blobs in
          let sha : staged.sha256 ≡ ingest.sha256 =
            Holds-ok (λ (s : StagedUpload). s.sha256 ≡ ingest.sha256) _
              (stage_upload-sha256 limit ingest.sha256 ingest.chunks) e in
          (
            store_content store now expires_at ingest.blob_id key ingest.media_type staged db.blobs
                existing,
            subst
                (λ h. IsUsable h expires_at (
                  store_content store now expires_at ingest.blob_id key ingest.media_type staged
                    db.blobs existing))
                sha
                (store_content-IsUsable db.blobs keyed store now expires_at ingest.blob_id key
                  ingest.media_type staged existing fresh refl),
            refl,
            refl,
            refl,
          )

source_blob_intro :
    (around : Surroundings) (request : Submission) (db : Db) (asset : Asset) (blob : Blob)
    → find (is_asset_of request.client_id request.asset_id) db.assets ≡ some asset
    → leb asset.expires_at around.now ≡ false
    → find_blob asset.blob_id db.blobs ≡ some blob
    → (not (is_available blob.state)
        || leb blob.expires_at around.now
        || not (exists_object around.store blob.object_key))
      ≡ false
    → source_blob around request db ≡ ok blob
unfolding source_blob
source_blob_intro around request db asset blob e still f there =
    rw (source_blob, e, still, f, there) refl

-- The row that an ingest adds is the one that its client and its key find.
added_asset :
    (asset : Asset) (assets : List Asset) (client_id asset_id : ℕ)
    → ((a : Asset) → Memᴰ a assets → a.id ≢ asset.id)
    → client_id ≡ asset.client_id
    → asset_id ≡ asset.id
    → find (is_asset_of client_id asset_id) (assets ++ asset ∷ []) ≡ some asset
added_asset asset assets client_id asset_id fresh client id =
    find_unique (is_asset_of client_id asset_id) (assets ++ asset ∷ [])
      (mem-append_last assets asset) (ground arith)
      λ a n h. elim (mem-append_cases assets asset n) [
        | inr e ↦ e
        | inl old ↦ absurd (fresh a old (ground arith))
      ]

-- An upload whose ingest has committed can be submitted: until its retention is over, a submission
-- of its client for its asset finds a source, and that is the content with the upload's hash, whether
-- it was there before, was restored or is new. The keys of the tables tell rows apart, the drawn ones
-- are new, and the submission finds the tables and the bucket as the ingest left them.
pub ingest_upload-source_blob :
    (settings : Settings) (limit : Option ℕ) (now : ℕ) (ingest : Ingest) (store : ObjectStore)
    (db : Db) {db' : Db} {store' : ObjectStore} {result : AssetIngestResult} (around : Surroundings)
    (request : Submission)
    → IsKeyed (λ (b : Blob). b.id) db.blobs
    → ((b : Blob) → Memᴰ b db.blobs → b.id ≢ ingest.blob_id)
    → ((a : Asset) → Memᴰ a db.assets → a.id ≢ ingest.asset_id)
    → ingest_upload settings limit now ingest store db ≡ ok (db', store', result)
    → around.store ≡ store'
    → around.now < now + hours settings.asset_retention_hours
    → request.client_id ≡ ingest.client_id
    → request.asset_id ≡ ingest.asset_id
    → (blob : Blob) × (source_blob around request db' ≡ ok blob) × (blob.sha256 ≡ ingest.sha256)
ingest_upload-source_blob settings limit now ingest store db {db'} around request keyed fresh
      fresh_asset commits same_store early client asset =
    let (stored, usable, blobs_are, store_is, assets_are) =
      Holds-ok (Leaves settings now ingest db) _
        (ingest_upload-Leaves settings limit now ingest store db keyed fresh) commits in
    let row = new_asset (now + hours settings.asset_retention_hours) ingest stored.blob in
    let asset_found =
      subst⁻¹ (λ rows. find (is_asset_of request.client_id request.asset_id) rows ≡ some row)
        assets_are
        (added_asset row db.assets request.client_id request.asset_id fresh_asset client asset) in
    let blob_found =
      subst⁻¹ (λ rows. find_blob stored.blob.id rows ≡ some stored.blob) blobs_are usable.found in
    let there =
      subst⁻¹ (λ s. exists_object s stored.blob.object_key ≡ true) (same_store ∙ store_is)
        usable.there in
    (
      stored.blob,
      source_blob_intro around request db' row stored.blob asset_found (ground arith) blob_found
          (ground (arith, usable.available, usable.lasting, there)),
      usable.hashed,
    )
