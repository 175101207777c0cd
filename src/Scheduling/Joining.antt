-- ===== src/Scheduling/Joining.antt =====
-- A submission to app/services/jobs.py that joins a queued run: JobService._ensure_stages finds all the
-- rows that it would insert.
use media_engine.Prelude.{
  ℕ, String, true, List, [], ◌∷◌, ◌≡◌, refl, false, subst⁻¹, Memᴰ, arith, any, contains,
  str_eq_refl, ok, Holds, Holds-bind, Holds-ok,
}
use media_engine.Domain.Pipelines.{PipelineStageDefinition, PipelineDefinition}
use media_engine.Models.{StageRun, StageDependency, PipelineRun, Db}
use media_engine.Settings.{Settings}
use media_engine.Jobs.Stages.{
  is_stage_of, insert_stages, stage_by_name, same_dependency, link_stage, link_stages,
  ensure_stages,
}
use media_engine.Scheduling.Steps.{Scheduled}

-- A run whose stages and dependencies are all there.
pub record HasStages (run_id : ℕ) (pipeline : PipelineDefinition) (db : Db) : Type 0 where
  pub present :
      (d : PipelineStageDefinition)
      → Memᴰ d pipeline.stages
      → any (is_stage_of run_id d.name) db.stages ≡ true
  pub linked :
      (d : PipelineStageDefinition) (n : String) (s u : StageRun)
      → Memᴰ d pipeline.stages
      → contains n d.depends_on ≡ true
      → stage_by_name run_id d.name db.stages ≡ ok s
      → stage_by_name run_id n db.stages ≡ ok u
      → any
          (same_dependency (record { stage_run_id = s.id; depends_on_stage_run_id = u.id }))
          db.dependencies
        ≡ true

insert_stages-present :
    (settings : Settings) (stage_ids : String → ℕ) (now : ℕ) (run : PipelineRun)
    (pipeline : PipelineDefinition) (definitions : List PipelineStageDefinition)
    (stages : List StageRun)
    → ((d : PipelineStageDefinition)
        → Memᴰ d definitions
        → any (is_stage_of run.id d.name) stages ≡ true)
    → insert_stages settings stage_ids now run pipeline definitions stages ≡ ok stages
unfolding insert_stages
insert_stages-present settings stage_ids now run pipeline [] stages h = refl
insert_stages-present settings stage_ids now run pipeline (d ∷ definitions) stages h =
    rw (h d (Memᴰ.head refl)) (
      insert_stages-present settings stage_ids now run pipeline definitions stages
        (λ e m. h e (Memᴰ.tail m)))

module _ (run_id : ℕ) (stages : List StageRun) (dependencies : List StageDependency) where
  abbrev Unchanged : List StageDependency → Type 0
  Unchanged after = after ≡ dependencies

  link_stage-Unchanged :
      (stage : StageRun) (names : List String)
      → ((n : String) (u : StageRun)
          → contains n names ≡ true
          → stage_by_name run_id n stages ≡ ok u
          → any
              (same_dependency (record { stage_run_id = stage.id; depends_on_stage_run_id = u.id }))
              dependencies
            ≡ true)
      → Holds Unchanged (link_stage run_id stages stage names dependencies)
  unfolding link_stage contains
  link_stage-Unchanged stage [] h = refl
  link_stage-Unchanged stage (name ∷ names) h =
      Holds-bind Unchanged (stage_by_name run_id name stages) _ λ up e.
        rw (h name up (ground (arith, str_eq_refl name)) e)
          (link_stage-Unchanged stage names (λ n u c f. h n u (ground (arith, c)) f))

  link_stages-Unchanged :
      (definitions : List PipelineStageDefinition)
      → ((d : PipelineStageDefinition) (n : String) (s u : StageRun)
          → Memᴰ d definitions
          → contains n d.depends_on ≡ true
          → stage_by_name run_id d.name stages ≡ ok s
          → stage_by_name run_id n stages ≡ ok u
          → any
              (same_dependency (record { stage_run_id = s.id; depends_on_stage_run_id = u.id }))
              dependencies
            ≡ true)
      → Holds Unchanged (link_stages run_id stages definitions dependencies)
  unfolding link_stages
  link_stages-Unchanged [] h = refl
  link_stages-Unchanged (d ∷ definitions) h =
      Holds-bind Unchanged (stage_by_name run_id d.name stages) _ λ stage e.
        Holds-bind Unchanged (link_stage run_id stages stage d.depends_on dependencies) _
          λ between k.
            let same =
              Holds-ok Unchanged _
                (link_stage-Unchanged stage d.depends_on
                  (λ n u c f. h d n stage u (Memᴰ.head refl) c e f))
                k in
            subst⁻¹ (λ b. Holds Unchanged (link_stages run_id stages definitions b)) same
              (link_stages-Unchanged definitions (λ c n s u m. h c n s u (Memᴰ.tail m)))

pub joined-Scheduled :
    (settings : Settings) (stage_ids : String → ℕ) (now : ℕ) (run : PipelineRun)
    (pipeline : PipelineDefinition) (db : Db)
    → HasStages run.id pipeline db
    → Scheduled db
    → Holds Scheduled (ensure_stages settings stage_ids now run pipeline false db)
unfolding ensure_stages
joined-Scheduled settings stage_ids now run pipeline db whole v =
    rw
      (insert_stages-present settings stage_ids now run pipeline pipeline.stages db.stages
        whole.present)
      (Holds-bind Scheduled (link_stages run.id db.stages pipeline.stages db.dependencies) _
        λ dependencies k.
          let same =
            Holds-ok (λ after. after ≡ db.dependencies) _
              (link_stages-Unchanged run.id db.stages db.dependencies pipeline.stages whole.linked)
              k in
          rw same v)
