-- ===== src/Jobs/Sources.antt =====
-- The source of a submission of app/services/jobs.py, found again by the next one, and the run that
-- its key finds.
use media_engine.Prelude.{
  ℕ, Bool, true, false, ◌≡◌, ◌≢◌, refl, ◌∙◌, ap, ◌⊎◌, inl, inr, none, some, List, [], ◌∷◌, Memᴰ,
  ◌&&◌, ◌||◌, not, ◌==◌, ==_iff, ◌=ₛ◌, arith, leb, find, find_holds, find-mem, find-none,
  str_eq_refl, Bool-cases, Option-cases, Exception, ok, raised, raise_if, or_raise, or_raise-eq-ok,
  Holds, Holds-bind,
}
use media_engine.Models.{Blob, Asset, PipelineRun, Db}
use media_engine.Jobs.Cache.{is_available, exists_object, find_blob}
use media_engine.Jobs.Submission.{is_run_of_key, upsert_run}
use media_engine.Jobs.Requests.{Surroundings, Submission, source_blob}
use media_engine.Jobs.Serving.{find-append_none, KeepsSources}

pub find-none_intro {ℓ} :
    {A : Type ℓ} (p : A → Bool) (xs : List A)
    → ((a : A) → Memᴰ a xs → p a ≡ false)
    → find p xs ≡ none
unfolding find
find-none_intro p [] h = refl
find-none_intro p (x ∷ xs) h =
    rw (h x (Memᴰ.head refl)) (find-none_intro p xs (λ a m. h a (Memᴰ.tail m)))

-- The primary key of the runs, and a drawn key that none of them has.
pub record IsKeyed (runs : List PipelineRun) (run_id : ℕ) : Type 0 where
  pub unique : (r s : PipelineRun) → Memᴰ r runs → Memᴰ s runs → r.id ≡ s.id → r ≡ s
  pub fresh : (r : PipelineRun) → Memᴰ r runs → r.id ≢ run_id

pub has_id : ℕ → PipelineRun → Bool
has_id id row = row.id == id

pub found_run :
    (runs : List PipelineRun) (run : PipelineRun)
    → ((r s : PipelineRun) → Memᴰ r runs → Memᴰ s runs → r.id ≡ s.id → r ≡ s)
    → Memᴰ run runs
    → find (λ (row : PipelineRun). row.id == run.id) runs ≡ some run
found_run runs run unique m =
    elim (Option-cases (find (λ (row : PipelineRun). row.id == run.id) runs)) [
      | inl n ↦
          let missed : (run.id == run.id) ≡ false =
            find-none (λ (row : PipelineRun). row.id == run.id) runs n m in
          absurd (ground (arith, (==_iff run.id run.id).1 refl))
      | inr (t, n) ↦
          n
          ∙ ap (λ r. some r)
              (unique t run (find-mem (λ (row : PipelineRun). row.id == run.id) runs n) m (
                (==_iff t.id run.id).0
                  (find_holds (λ (row : PipelineRun). row.id == run.id) runs n)))
    ]

pub upserted :
    (candidate : PipelineRun) (runs : List PipelineRun)
    → IsKeyed runs candidate.id
    → let (runs', run, reused) = upsert_run candidate runs in
      (find (λ (row : PipelineRun). row.id == run.id) runs' ≡ some run)
      × ((run.run_key =ₛ candidate.run_key) ≡ true)
unfolding upsert_run
upserted candidate runs k = elim (Option-cases (find (is_run_of_key candidate.run_key) runs)) [
  | inl n ↦
      rw (upsert_run, n)
        (
          find-append_none (λ (row : PipelineRun). row.id == candidate.id) runs candidate
              (find-none_intro (λ (row : PipelineRun). row.id == candidate.id) runs
                (λ r m. other r (k.fresh r m)))
              ((==_iff candidate.id candidate.id).1 refl),
          str_eq_refl candidate.run_key,
        )
  | inr (run, n) ↦
      rw (upsert_run, n)
        (
          found_run runs run k.unique (find-mem (is_run_of_key candidate.run_key) runs n),
          find_holds (is_run_of_key candidate.run_key) runs n,
        )
]
  where
    other : (r : PipelineRun) → r.id ≢ candidate.id → (r.id == candidate.id) ≡ false
    other r h = ground arith

-- Where a submission found its source.
pub SourceOf : Submission → Db → Blob → Type 0
SourceOf request db blob =
    (asset : Asset) × (find
        (λ (row : Asset). row.id == request.asset_id && row.client_id == request.client_id)
        db.assets
      ≡ some asset)
    × (find_blob asset.blob_id db.blobs ≡ some blob)

pub source_found :
    (around : Surroundings) (request : Submission) (db : Db)
    → Holds (SourceOf request db) (source_blob around request db)
unfolding source_blob SourceOf
source_found around request db =
    Holds-bind (SourceOf request db)
      (or_raise
        (find (λ (row : Asset). row.id == request.asset_id && row.client_id == request.client_id)
          db.assets)
        Exception.asset_not_found)
      _
      λ asset e.
        Holds-bind (SourceOf request db)
          (raise_if (leb asset.expires_at around.now) Exception.asset_unavailable) _
          λ u _.
            Holds-bind (SourceOf request db)
              (or_raise (find_blob asset.blob_id db.blobs) Exception.asset_unavailable) _
              λ blob f.
                Holds-bind (SourceOf request db)
                  (raise_if
                    (not (is_available blob.state)
                      || leb blob.expires_at around.now
                      || not (exists_object around.store blob.object_key))
                    Exception.asset_unavailable)
                  _ λ v _. (asset, or_raise-eq-ok _ _ e, or_raise-eq-ok _ _ f)

pub source_again :
    (around : Surroundings) (request : Submission) (db db' : Db) (blob : Blob)
    → SourceOf request db blob
    → KeepsSources db db'
    → (source_blob around request db' ≡ raised Exception.asset_unavailable)
      ⊎ ((blob' : Blob) × (source_blob around request db' ≡ ok blob')
          × (blob'.sha256 ≡ blob.sha256))
unfolding source_blob SourceOf
source_again around request db db' blob (asset, e, f) (sa, sb) =
    let (blob', f', d) = sb asset.blob_id blob f in
    elim (Bool-cases (leb asset.expires_at around.now)) [
      | inl over ↦ rw (sa, e, over) (inl refl)
      | inr still ↦
          elim (Bool-cases (
            not (is_available blob'.state)
            || leb blob'.expires_at around.now
            || not (exists_object around.store blob'.object_key))) [
              | inl gone ↦ rw (sa, e, still, f', gone) (inl refl)
              | inr there ↦ rw (sa, e, still, f', there) (inr (blob', refl, d))
            ]
    ]
