-- ===== src/Jobs/Serving.antt =====
-- What a submission of app/services/jobs.py keeps of the rows that the next one reads, and how it
-- finds the run that serves it.
use media_engine.Prelude.{
  ℕ, String, Bool, true, false, ◌≡◌, refl, ◌∙◌, inl, inr, none, some, List, [], ◌∷◌, ◌++◌, ◌&&◌,
  ◌==◌, ==_iff, ◌=ₛ◌, ◌+◌, arith, ltb, max, if◌then◌else◌, find, find-update_where, update_where,
  any, Bool-cases, subst, subst⁻¹, ok, Holds, Holds-bind, Holds-ok,
}
use media_engine.Domain.Pipelines.{PipelineDefinition, required_artifacts}
use media_engine.Models.{Status, is_queued, Blob, Artifact, PipelineRun, Db}
use media_engine.Settings.{Settings, hours}
use media_engine.Workers.Leases.{save_run}
use media_engine.Workers.Requests.{is_active}
use media_engine.Jobs.Stages.{insert_stages, link_stages, ensure_stages}
use media_engine.Jobs.Cache.{is_output, find_blob, is_cache_hit, extended_run, extend_cached}
use media_engine.Jobs.Submission.{restarted_run, serve}
use media_engine.Jobs.Requests.{Surroundings, has_run_key}

-- A row that is found, after an update that keeps the test of the query.
find-update_where_image {ℓ} :
    {A : Type ℓ} (p q : A → Bool) (f : A → A) (xs : List A) {a : A}
    → ((z : A) → p (f z) ≡ p z)
    → find p xs ≡ some a
    → find p (update_where q f xs) ≡ some (if q a then f a else a)
unfolding find update_where
find-update_where_image p q f [] same h = cc
find-update_where_image p q f (x ∷ xs) {a} same h = elim (Bool-cases (p x)) [
  | inl hit ↦
      let here : x ≡ a = ground (arith, hit) in
      subst (λ y. find p (update_where q f (x ∷ xs)) ≡ some (if q y then f y else y)) here
        (elim (Bool-cases (q x)) [ inl k ↦ rw (k, same x, hit) refl | inr k ↦ rw (k, hit) refl ])
  | inr miss ↦
      let rest = find-update_where_image p q f xs {a = a} same (rw miss at h) in
      elim (Bool-cases (q x)) [ inl k ↦ rw (k, same x, miss) rest | inr k ↦ rw (k, miss) rest ]
]

pub find-append_none {ℓ} :
    {A : Type ℓ} (p : A → Bool) (xs : List A) (a : A)
    → find p xs ≡ none
    → p a ≡ true
    → find p (xs ++ a ∷ []) ≡ some a
unfolding find
find-append_none p [] a n h = rw h refl
find-append_none p (x ∷ xs) a n h = elim (Bool-cases (p x)) [
  | inl hit ↦ ground arith
  | inr miss ↦ rw miss (find-append_none p xs a (ground arith) h)
]

-- What a submission leaves of the rows that the next one reads: the assets, and the digest of each
-- blob.
abbrev pub KeepsSources : Db → Db → Type 0
KeepsSources db db' =
    (db'.assets ≡ db.assets)
    × ((id : ℕ) (b : Blob)
        → find_blob id db.blobs ≡ some b
        → (b' : Blob) × (find_blob id db'.blobs ≡ some b') × (b'.sha256 ≡ b.sha256))

same_blobs :
    (db db' : Db)
    → db'.blobs ≡ db.blobs
    → (id : ℕ) (b : Blob) → find_blob id db.blobs ≡ some b
    → (b' : Blob) × (find_blob id db'.blobs ≡ some b') × (b'.sha256 ≡ b.sha256)
same_blobs db db' e id b h = (b, subst⁻¹ (λ bs. find_blob id bs ≡ some b) e h, refl)

-- The run that serves a request is found by its key in the tables that it leaves.
abbrev pub Served : Db → String → Db × PipelineRun × Status × Bool → Type 0
Served db run_key (served, run, status, hit) =
    KeepsSources db served
    × (has_run_key (find (λ (row : PipelineRun). row.id == run.id) served.runs) run_key ≡ true)

ensure_stages-same :
    (settings : Settings) (stage_ids : String → ℕ) (now : ℕ) (run : PipelineRun)
    (pipeline : PipelineDefinition) (reset : Bool) (db : Db)
    → Holds
        (λ (d : Db). (d.assets ≡ db.assets) × (d.blobs ≡ db.blobs) × (d.runs ≡ db.runs))
        (ensure_stages settings stage_ids now run pipeline reset db)
unfolding ensure_stages
ensure_stages-same settings stage_ids now run pipeline reset db =
    Holds-bind P (insert_stages settings stage_ids now run pipeline pipeline.stages db.stages) _
      λ stages _.
        Holds-bind P (link_stages run.id stages pipeline.stages db.dependencies) _
          λ dependencies _. (refl, refl, refl)
  where
    P : Db → Type 0
    P d = (d.assets ≡ db.assets) × (d.blobs ≡ db.blobs) × (d.runs ≡ db.runs)

extend_cached-KeepsSources :
    (extend_to : ℕ) (run : PipelineRun) (pipeline : PipelineDefinition) (db : Db)
    → KeepsSources db (extend_cached extend_to run pipeline db)
unfolding extend_cached
extend_cached-KeepsSources extend_to run pipeline db = (
  refl,
  λ id b h. (
    (if is_cached b then longer b else b),
    find-update_where_image (λ (row : Blob). row.id == id) is_cached longer db.blobs (λ z. refl) h,
    same_digest b,
  ),
)
  where
    is_cached : Blob → Bool
    is_cached blob =
        any
          (λ (artifact : Artifact).
            is_output run.id (required_artifacts pipeline) artifact && artifact.blob_id == blob.id)
          db.artifacts

    longer : Blob → Blob
    longer blob = record blob { expires_at = max blob.expires_at extend_to }

    same_digest : (b : Blob) → (if is_cached b then longer b else b).sha256 ≡ b.sha256
    same_digest b = elim (Bool-cases (is_cached b)) [ inl k ↦ rw k refl | inr k ↦ rw k refl ]

-- The row of a run is found by its key once it is saved.
saved_run_key :
    (run run' : PipelineRun) (runs : List PipelineRun) (run_key : String)
    → run'.id ≡ run.id
    → run'.run_key ≡ run.run_key
    → (run.run_key =ₛ run_key) ≡ true
    → find (λ (row : PipelineRun). row.id == run.id) runs ≡ some run
    → has_run_key (find (λ (row : PipelineRun). row.id == run'.id) (save_run run' runs)) run_key
      ≡ true
unfolding save_run
saved_run_key run run' runs run_key i k h found =
    subst⁻¹ (λ o. has_run_key o run_key ≡ true)
      (find-update_where (λ (row : PipelineRun). row.id == run'.id) (λ row. row.id == run'.id) run'
        runs (λ z. refl) ((==_iff run'.id run'.id).1 refl)
        (subst⁻¹ (λ n. find (λ (row : PipelineRun). row.id == n) runs ≡ some run) i found))
      (subst⁻¹ (λ t. (t =ₛ run_key) ≡ true) k h)

kept_run_key :
    (run : PipelineRun) (runs : List PipelineRun) (run_key : String)
    → (run.run_key =ₛ run_key) ≡ true
    → find (λ (row : PipelineRun). row.id == run.id) runs ≡ some run
    → has_run_key (find (λ (row : PipelineRun). row.id == run.id) runs) run_key ≡ true
kept_run_key run runs run_key h found = subst⁻¹ (λ o. has_run_key o run_key ≡ true) found h

pub serve-Served :
    (settings : Settings) (around : Surroundings) (pipeline : PipelineDefinition)
    (run : PipelineRun) (db : Db) (run_key : String)
    → (run.run_key =ₛ run_key) ≡ true
    → find (λ (row : PipelineRun). row.id == run.id) db.runs ≡ some run
    → Holds (Served db run_key) (serve settings around pipeline run db)
unfolding serve
serve-Served settings around pipeline run db run_key key found =
    elim (Bool-cases (is_cache_hit around.store around.now run pipeline db)) [
      | inl hit ↦ rw hit (extend_cached-KeepsSources expires_at run pipeline db, cached)
      | inr miss ↦ elim (Bool-cases (is_active run.status && ltb around.now run.expires_at)) [
        | inl live ↦ elim (Bool-cases (is_queued run.status)) [
          | inl waiting ↦
              rw (miss, live, waiting)
                (Holds-bind S
                  (ensure_stages settings around.stage_ids around.now run pipeline false db) _
                  λ d e.
                    ensured run db db d (same false run db d e) (refl, λ id b h. (b, h, refl))
                      (kept_run_key run db.runs run_key key found))
          | inr begun ↦
              rw (miss, live, begun)
                ((refl, λ id b h. (b, h, refl)), kept_run_key run db.runs run_key key found)
        ]
        | inr over ↦
            rw (miss, over)
              (Holds-bind S
                (ensure_stages settings around.stage_ids around.now restarted pipeline true
                  (record db { runs = save_run restarted db.runs }))
                _
                λ d e.
                  ensured restarted db (record db { runs = save_run restarted db.runs }) d
                    (same true restarted (record db { runs = save_run restarted db.runs }) d e)
                    (refl, λ id b h. (b, h, refl))
                    (saved_run_key run restarted db.runs run_key refl refl key found))
      ]
    ]
  where
    S : Db × PipelineRun × Status × Bool → Type 0
    S = Served db run_key

    expires_at : ℕ
    expires_at = around.now + hours settings.pipeline_retention_hours

    restarted : PipelineRun
    restarted = restarted_run expires_at run

    cached :
        has_run_key
          (find
            (λ (row : PipelineRun). row.id == run.id)
            (extend_cached expires_at run pipeline db).runs)
          run_key
        ≡ true
    cached = saved_run_key run (extended_run expires_at run) db.runs run_key refl refl key found

    Same : Db → Db → Type 0
    Same db0 d = (d.assets ≡ db0.assets) × (d.blobs ≡ db0.blobs) × (d.runs ≡ db0.runs)

    same :
        (reset : Bool) (r : PipelineRun) (db0 d : Db)
        → ensure_stages settings around.stage_ids around.now r pipeline reset db0 ≡ ok d
        → Same db0 d
    same reset r db0 d e =
        Holds-ok (Same db0) _
          (ensure_stages-same settings around.stage_ids around.now r pipeline reset db0) e

    ensured :
        (r : PipelineRun) (db1 db0 d : Db)
        → Same db0 d
        → KeepsSources db1 db0
        → has_run_key (find (λ (row : PipelineRun). row.id == r.id) db0.runs) run_key ≡ true
        → KeepsSources db1 d
          × (has_run_key (find (λ (row : PipelineRun). row.id == r.id) d.runs) run_key ≡ true)
    ensured r db1 db0 d s k h = (
      (
        s.0 ∙ k.0,
        λ id b f.
            subst⁻¹ (λ bs. (b' : Blob) × (find_blob id bs ≡ some b') × (b'.sha256 ≡ b.sha256)) s.1
              (k.1 id b f),
      ),
      subst⁻¹ (λ rs. has_run_key (find (λ (row : PipelineRun). row.id == r.id) rs) run_key ≡ true)
          s.2 h,
    )
