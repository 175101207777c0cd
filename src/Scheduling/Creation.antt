-- ===== src/Scheduling/Creation.antt =====
-- The stages that app/services/jobs.py, JobService._ensure_stages, creates for a new run, in the
-- stage table of app/services/workers.py.
use media_engine.Prelude.{
  ℕ, String, true, false, Option, none, some, List, [], ◌≡◌, ◌≢◌, refl, sym, ap, ◌∙◌, subst, inl,
  inr, ◌<◌, Memᴰ, arith, ◌==◌, ==_iff, Option-cases, find, find-mem, find_holds, find_unique,
  contains, ok, Holds, Holds-bind, Holds-ok,
}
use media_engine.Domain.Pipelines.{PipelineStageDefinition, PipelineDefinition}
use media_engine.Domain.Catalog.{get_pipeline}
use media_engine.Domain.Graphs.{well_ordered, get_pipeline-well_ordered}
use media_engine.Domain.Positions.{position, ordered-distinct, position-falls}
use media_engine.Models.{is_blocked, is_completed, StageRun, StageDependency, PipelineRun, Db}
use media_engine.Settings.{Settings}
use media_engine.Jobs.Stages.{insert_stages, link_stages, ensure_stages}
use media_engine.Scheduling.Invariant.{Waits, IsScheduled}
use media_engine.Scheduling.Steps.{Scheduled}
use media_engine.Scheduling.Inserting.{
  IsStageOf, IsInserted, initial-blocked, initial-free, insert_stages-IsInserted,
}
use media_engine.Scheduling.Linking.{IsLink, AreLinked, link_stages-AreLinked}

-- The UUIDs that are drawn for the stages of a pipeline: they differ, and neither a row nor a
-- dependency has one. No row is the run's.
pub record AreDrawn (stage_ids : String → ℕ) (run_id : ℕ) (all : List PipelineStageDefinition)
    (db : Db) : Type 0 where
  pub injective :
      (d e : PipelineStageDefinition)
      → Memᴰ d all
      → Memᴰ e all
      → stage_ids d.name ≡ stage_ids e.name
      → d.name ≡ e.name
  pub fresh :
      (s : StageRun) (d : PipelineStageDefinition)
      → Memᴰ s db.stages
      → Memᴰ d all
      → s.id ≢ stage_ids d.name
  pub fresh_stage :
      (e : StageDependency) (d : PipelineStageDefinition)
      → Memᴰ e db.dependencies
      → Memᴰ d all
      → e.stage_run_id ≢ stage_ids d.name
  pub fresh_upstream :
      (e : StageDependency) (d : PipelineStageDefinition)
      → Memᴰ e db.dependencies
      → Memᴰ d all
      → e.depends_on_stage_run_id ≢ stage_ids d.name
  pub new_run : (s : StageRun) → Memᴰ s db.stages → s.pipeline_run_id ≢ run_id

module _ (stage_ids : String → ℕ) (run_id : ℕ) (all : List PipelineStageDefinition) (db : Db)
    (drawn : AreDrawn stage_ids run_id all db) (ordered : well_ordered [] all ≡ true)
    (v : Scheduled db) where
  -- The position in the pipeline of a stage that was made, and the old rank of another.
  abbrev rank_after : ℕ → ℕ
  rank_after id = elim (find (λ (d : PipelineStageDefinition). stage_ids d.name == id) all) [
    | none ↦ v.rank id
    | some d ↦ position d.name all
  ]

  rank_made :
      (d : PipelineStageDefinition) (id : ℕ)
      → Memᴰ d all
      → id ≡ stage_ids d.name
      → rank_after id ≡ position d.name all
  rank_made d id m h =
      rw
        (
          rank_after,
          find_unique (λ (c : PipelineStageDefinition). stage_ids c.name == id) all m
              ((==_iff (stage_ids d.name) id).1 (sym h))
              (λ c n k.
                ordered-distinct [] all n m ordered
                  (drawn.injective c d n m ((==_iff (stage_ids c.name) id).0 k ∙ h))),
        )
        refl

  rank_kept :
      (id : ℕ)
      → ((d : PipelineStageDefinition) → Memᴰ d all → id ≢ stage_ids d.name)
      → rank_after id ≡ v.rank id
  rank_kept id other =
      elim (Option-cases (find (λ (d : PipelineStageDefinition). stage_ids d.name == id) all)) [
        | inl n ↦ rw (rank_after, n) refl
        | inr (d, f) ↦ absurd (
            other d (find-mem _ all f) (
              sym (
                (==_iff (stage_ids d.name) id).0
                  (find_holds (λ (d : PipelineStageDefinition). stage_ids d.name == id) all f))))
      ]

  link_falls :
      (e : StageDependency)
      → IsLink stage_ids all e
      → rank_after e.depends_on_stage_run_id < rank_after e.stage_run_id
  link_falls e l = elim (position-falls [] all l.upstream.name l.stage_in l.names ordered) [
    | inl seen ↦ unfold contains in cc
    | inr less ↦ omega (
      arith,
      less,
      rank_made l.stage e.stage_run_id l.stage_in l.stage_is,
      rank_made l.upstream e.depends_on_stage_run_id l.upstream_in l.upstream_is,
    )
  ]

  module _ (stages : List StageRun) (dependencies : List StageDependency)
      (inserted : IsInserted stage_ids run_id db.stages all stages)
      (linked : AreLinked inserted drawn.new_run all db.dependencies dependencies) where
    created_falls :
        (e : StageDependency)
        → Memᴰ e dependencies
        → rank_after e.depends_on_stage_run_id < rank_after e.stage_run_id
    created_falls e m = elim (linked.linked.from e m) [
      | inr l ↦ link_falls e l
      | inl n ↦ omega (
        arith,
        v.falls e n,
        rank_kept e.stage_run_id (λ d k. drawn.fresh_stage e d n k),
        rank_kept e.depends_on_stage_run_id (λ d k. drawn.fresh_upstream e d n k),
      )
    ]

    Waits-kept : (s : StageRun) → Waits db.stages db.dependencies s → Waits stages dependencies s
    Waits-kept s (e, t, me, mt, a, b, c) =
        (e, t, linked.linked.kept e me, inserted.kept t mt, a, b, c)

    made-Waits :
        (s : StageRun) (d : PipelineStageDefinition)
        → Memᴰ d all
        → IsStageOf stage_ids run_id d s
        → is_blocked s.status ≡ true
        → Waits stages dependencies s
    made-Waits s d m made blocked =
        let (n, names) = initial-blocked d (sym (ap is_blocked made.status_is) ∙ blocked) in
        let w = linked.waits d n m names in
        (
          w.dependency,
          w.upstream,
          w.dependency_in,
          w.upstream_in,
          w.stage_is ∙ sym made.id_is,
          w.upstream_is,
          w.waited,
        )

    -- A stage that waits for another one was made blocked.
    link_blocks :
        (s : StageRun) (e : StageDependency)
        → Memᴰ s stages
        → is_blocked s.status ≡ false
        → e.stage_run_id ≡ s.id
        → IsLink stage_ids all e
        → ⊥
    link_blocks s e m free at l = elim (inserted.from s m) [
      | inl old ↦ drawn.fresh s l.stage old l.stage_in (sym at ∙ l.stage_is)
      | inr (d, k, made) ↦
          let same =
            ordered-distinct [] all l.stage_in k ordered
              (drawn.injective l.stage d l.stage_in k (sym l.stage_is ∙ at ∙ made.id_is)) in
          initial-free d l.upstream.name (sym (ap is_blocked made.status_is) ∙ free) (
            subst (λ (c : PipelineStageDefinition). contains l.upstream.name c.depends_on ≡ true)
              same l.names)
    ]

    created_ready :
        (s t : StageRun) (e : StageDependency)
        → Memᴰ s stages
        → Memᴰ t stages
        → Memᴰ e dependencies
        → is_blocked s.status ≡ false
        → e.stage_run_id ≡ s.id
        → t.id ≡ e.depends_on_stage_run_id
        → is_completed t.status ≡ true
    created_ready s t e m n k free at on = elim (linked.linked.from e k) [
      | inr l ↦ absurd (link_blocks s e m free at l)
      | inl old ↦ elim (inserted.from s m) [
        | inr (d, i, made) ↦ absurd (drawn.fresh_stage e d old i (at ∙ made.id_is))
        | inl old_s ↦ elim (inserted.from t n) [
          | inr (d, i, made) ↦ absurd (drawn.fresh_upstream e d old i (sym on ∙ made.id_is))
          | inl old_t ↦ v.open_ready s t e old_s old_t old free at on
        ]
      ]
    ]

    pub created-IsScheduled : IsScheduled stages dependencies
    created-IsScheduled = record {
      rank = rank_after;
      falls = created_falls;
      unique = inserted.keyed;
      blocked_waits = λ s m blocked. elim (inserted.from s m) [
        | inl old ↦ Waits-kept s (v.blocked_waits s old blocked)
        | inr (d, k, made) ↦ made-Waits s d k made blocked
      ];
      open_ready = created_ready;
    }

-- For a new run of a pipeline of the catalogue, with UUIDs that nothing has yet, the creation of its
-- stages, if it does not raise, keeps the stage table scheduled, on which the progress of the runs
-- rests: keys tell stages apart, dependencies have no cycle, a blocked stage waits for one that has
-- not completed, and every other stage has all that it depends on.
pub ensure_stages-Scheduled :
    (settings : Settings) (stage_ids : String → ℕ) (now : ℕ) (run : PipelineRun) (name : String)
    (version : Option String) (pipeline : PipelineDefinition) (db : Db) {db' : Db}
    → get_pipeline name version ≡ ok pipeline
    → AreDrawn stage_ids run.id pipeline.stages db
    → Scheduled db
    → ensure_stages settings stage_ids now run pipeline false db ≡ ok db'
    → Scheduled db'
ensure_stages-Scheduled settings stage_ids now run name version pipeline db known drawn v =
    Holds-ok Scheduled _ created
  where
    created : Holds Scheduled (ensure_stages settings stage_ids now run pipeline false db)
    created =
        unfold ensure_stages in
        Holds-bind Scheduled
          (insert_stages settings stage_ids now run pipeline pipeline.stages db.stages) _
          λ stages h.
            let inserted =
              Holds-ok (IsInserted stage_ids run.id db.stages pipeline.stages) _
                (insert_stages-IsInserted stage_ids settings now run pipeline db.stages
                  pipeline.stages drawn.injective drawn.fresh pipeline.stages db.stages (λ d m. m)
                  (record { from = λ s m. inl m; kept = λ s m. m; keyed = v.unique }))
                h in
            Holds-bind Scheduled (link_stages run.id stages pipeline.stages db.dependencies) _
              λ dependencies k.
                created-IsScheduled stage_ids run.id pipeline.stages db drawn
                  (get_pipeline-well_ordered name version pipeline known) v stages dependencies
                  inserted
                  (Holds-ok (AreLinked inserted drawn.new_run pipeline.stages db.dependencies) _
                    (link_stages-AreLinked inserted drawn.new_run pipeline.stages db.dependencies
                      (λ d m. m))
                    k)
