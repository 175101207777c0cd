-- ===== src/Jobs/Outputs.antt =====
-- app/services/jobs.py, _is_cache_hit, by the outputs that a run has.
use media_engine.Prelude.{
  ◌<◌, lt→ltb, ==_iff, ℕ, String, Bool, true, false, ◌≡◌, ◌↔◌, refl, inl, inr, some, List, [], ◌∷◌,
  Memᴰ, ◌&&◌, ◌=ₛ◌, arith, ltb, contains, is_subset-contains, is_subset_intro, Bool-cases,
  Option-cases, subst, &&-true,
}
use media_engine.Domain.Pipelines.{PipelineDefinition, required_artifacts}
use media_engine.Models.{is_completed, Blob, Artifact, PipelineRun, Db}
use media_engine.Workers.Publication.{ObjectStore}
use media_engine.Jobs.Cache.{
  exists_object, is_available, find_blob, is_output, is_live, has_live_blob, available_types,
  is_cache_hit,
}

module _ (store : ObjectStore) (now run_id : ℕ) (required : List String) (blobs : List Blob) where
  -- An artifact of the run of the type, that has not expired and whose blob is there.
  pub record Output (type : String) (artifacts : List Artifact) : Type 0 where
    pub artifact : Artifact
    pub blob : Blob
    pub row : Memᴰ artifact artifacts
    pub of_run : artifact.pipeline_run_id ≡ run_id
    pub needed : contains artifact.artifact_type required ≡ true
    pub has_type : (artifact.artifact_type =ₛ type) ≡ true
    pub joined : find_blob artifact.blob_id blobs ≡ some blob
    pub unexpired : now < artifact.expires_at
    pub available : is_available blob.state ≡ true
    pub kept : now < blob.expires_at
    pub stored : exists_object store blob.object_key ≡ true

  live_parts :
      (a : Artifact) (b : Blob)
      → is_live store now a b ≡ true
      → (now < a.expires_at)
        × (is_available b.state ≡ true)
        × (now < b.expires_at)
        × (exists_object store b.object_key ≡ true)
  live_parts a b h = ground arith

  live_intro :
      (a : Artifact) (b : Blob)
      → now < a.expires_at
      → is_available b.state ≡ true
      → now < b.expires_at
      → exists_object store b.object_key ≡ true
      → is_live store now a b ≡ true
  live_intro a b u v k e = rw (lt→ltb now a.expires_at u, v, lt→ltb now b.expires_at k, e) refl

  output_parts :
      (a : Artifact)
      → is_output run_id required a ≡ true
      → (a.pipeline_run_id ≡ run_id) × (contains a.artifact_type required ≡ true)
  output_parts a h = ground arith

  live_blob :
      (a : Artifact)
      → has_live_blob store now blobs a ≡ true
      → (b : Blob) × (find_blob a.blob_id blobs ≡ some b) × (is_live store now a b ≡ true)
  live_blob a h = elim (Option-cases (find_blob a.blob_id blobs)) [
    | inl n ↦ absurd (no_blob (rw (has_live_blob, n) at h))
    | inr (b, n) ↦ (b, n, rw (has_live_blob, n) at h)
  ]
    where
      no_blob : false ≡ true → ⊥
      no_blob e = cc

  blob_live :
      (a : Artifact) (b : Blob)
      → find_blob a.blob_id blobs ≡ some b
      → is_live store now a b ≡ true
      → has_live_blob store now blobs a ≡ true
  blob_live a b n h = rw (has_live_blob, n) h

  abbrev is_counted : Artifact → Bool
  is_counted a = is_output run_id required a && has_live_blob store now blobs a

  counted :
      (a : Artifact) (b : Blob)
      → a.pipeline_run_id ≡ run_id
      → contains a.artifact_type required ≡ true
      → find_blob a.blob_id blobs ≡ some b
      → is_live store now a b ≡ true
      → is_counted a ≡ true
  counted a b r c j l = rw ((==_iff a.pipeline_run_id run_id).1 r, c, blob_live a b j l) refl

  later :
      {type : String} {a : Artifact} {artifacts : List Artifact}
      → Output type artifacts
      → Output type (a ∷ artifacts)
  later o = record {
    artifact = o.artifact;
    blob = o.blob;
    row = Memᴰ.tail o.row;
    of_run = o.of_run;
    needed = o.needed;
    has_type = o.has_type;
    joined = o.joined;
    unexpired = o.unexpired;
    available = o.available;
    kept = o.kept;
    stored = o.stored;
  }

  available_types-Output :
      (type : String) (artifacts : List Artifact)
      → contains type (available_types store now run_id required blobs artifacts) ≡ true
      → Output type artifacts
  unfolding available_types contains
  available_types-Output type [] h = cc
  available_types-Output type (a ∷ artifacts) h = elim (Bool-cases (is_counted a)) [
    | inr k ↦ later (available_types-Output type artifacts (rw k at h))
    | inl k ↦
        let (output, has_blob) =
          &&-true (is_output run_id required a) (has_live_blob store now blobs a) k in
        elim (Bool-cases (a.artifact_type =ₛ type)) [
          | inl t ↦
              let (b, joined, live) = live_blob a has_blob in
              let (unexpired, available, kept, stored) = live_parts a b live in
              let (of_run, needed) = output_parts a output in
              record {
                artifact = a;
                blob = b;
                row = Memᴰ.head refl;
                of_run = of_run;
                needed = needed;
                has_type = t;
                joined = joined;
                unexpired = unexpired;
                available = available;
                kept = kept;
                stored = stored;
              }
          | inr t ↦ later (available_types-Output type artifacts (rw (k, t) at h))
        ]
  ]

  counted-contains :
      (type : String) (artifacts : List Artifact) (a : Artifact)
      → Memᴰ a artifacts
      → is_counted a ≡ true
      → (a.artifact_type =ₛ type) ≡ true
      → contains type (available_types store now run_id required blobs artifacts) ≡ true
  unfolding available_types contains
  counted-contains type [] a m k t = elim m [ ]
  counted-contains type (x ∷ artifacts) a (Memᴰ.head e) k t =
      rw
        (
          subst (λ (y : Artifact). is_counted y ≡ true) e k,
          subst (λ (y : Artifact). (y.artifact_type =ₛ type) ≡ true) e t,
        )
        refl
  counted-contains type (x ∷ artifacts) a (Memᴰ.tail m) k t =
      let rest = counted-contains type artifacts a m k t in
      elim (Bool-cases (is_counted x)) [
        | inl y ↦ rw y (unfold contains in ground (arith, rest))
        | inr y ↦ rw y rest
      ]

  Output-available :
      (type : String) (artifacts : List Artifact)
      → Output type artifacts
      → contains type (available_types store now run_id required blobs artifacts) ≡ true
  Output-available type artifacts o =
      counted-contains type artifacts o.artifact o.row
        (counted o.artifact o.blob o.of_run o.needed o.joined
          (live_intro o.artifact o.blob o.unexpired o.available o.kept o.stored))
        o.has_type

-- A submission hits the cache exactly if the run has completed, is not over its retention, and each
-- artifact type that the pipeline requires has an output: an artifact of the run that has not
-- expired, with a blob that is available, has not expired and whose object is in the bucket.
pub is_cache_hit-Output :
    (store : ObjectStore) (now : ℕ) (run : PipelineRun) (pipeline : PipelineDefinition) (db : Db)
    → (is_cache_hit store now run pipeline db ≡ true) ↔ (
        (is_completed run.status ≡ true)
        × (ltb now run.expires_at ≡ true)
        × ((type : String)
            → contains type (required_artifacts pipeline) ≡ true
            → Output store now run.id (required_artifacts pipeline) db.blobs type db.artifacts))
unfolding is_cache_hit
is_cache_hit-Output store now run pipeline db = (
  λ h.
      let (done, fresh, all_there) = parts (is_completed run.status) (ltb now run.expires_at) _ h in
      (
        done,
        fresh,
        λ type c.
            available_types-Output store now run.id required db.blobs type db.artifacts
              (is_subset-contains required available type all_there c),
      ),
  λ (done, fresh, outputs).
      rw (done, fresh)
        (is_subset_intro required available (λ type c.
          Output-available store now run.id required db.blobs type db.artifacts (outputs type c))),
)
  where
    required : List String
    required = required_artifacts pipeline

    available : List String
    available = available_types store now run.id required db.blobs db.artifacts

    parts : (a b c : Bool) → (a && b && c) ≡ true → (a ≡ true) × (b ≡ true) × (c ≡ true)
    parts a b c h = ground arith
