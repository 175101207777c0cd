-- ===== src/Jobs/Stages.antt =====
-- app/services/jobs.py, JobService._ensure_stages: the rows of a run's stages and dependencies.
use media_engine.Prelude.{
  ℕ, String, Bool, true, false, none, some, List, [], ◌∷◌, ◌++◌, ◌&&◌, not, ◌==◌, ◌=ₛ◌,
  if◌then◌else◌, any, find, update_where, Exception, Result, ok, ◌>>=◌, or_raise, map,
}
use media_engine.Domain.Pipelines.{
  PipelineStageDefinition, PipelineDefinition, set_key, required_capabilities_for_stage,
}
use media_engine.Models.{
  Status, CapabilityValue, values, CapabilityMap, StageRun, StageDependency, PipelineRun, Db,
}
use media_engine.Settings.{Settings}

-- The unique key `uq_stage_run_pipeline_stage`.
abbrev pub is_stage_of : ℕ → String → StageRun → Bool
is_stage_of run_id name row = row.pipeline_run_id == run_id && row.stage_name =ₛ name

abbrev pub has_dependencies : List String → Bool
has_dependencies [] = false
has_dependencies (name ∷ names) = true

-- `"blocked" if stage_definition.depends_on else "queued"`
abbrev pub initial_status : PipelineStageDefinition → Status
initial_status definition =
    if has_dependencies definition.depends_on then Status.blocked else Status.queued

as_value : String × List String → String × CapabilityValue
as_value (key, texts) = (key, values texts)

-- `required_capabilities["backends"] = […]`, for a transcode pipeline and a backend that is set.
abbrev with_backend : Settings → PipelineDefinition → CapabilityMap → CapabilityMap
with_backend settings pipeline capabilities = elim settings.transcode_required_backend [
  | none ↦ capabilities
  | some backend ↦
      if pipeline.name =ₛ "transcode" && not (backend =ₛ "")
      then set_key "backends" (values (backend ∷ [])) capabilities
      else capabilities
]

-- The columns that the insert leaves out take their defaults.
abbrev pub new_stage : ℕ → ℕ → ℕ → PipelineStageDefinition → CapabilityMap → StageRun
new_stage id now run_id definition required_capabilities = record {
  id = id;
  pipeline_run_id = run_id;
  stage_name = definition.name;
  status = initial_status definition;
  required_capabilities = required_capabilities;
  priority = 0;
  attempt = 0;
  max_attempts = 3;
  lease_owner_id = none;
  lease_token = none;
  lease_expires_at = none;
  heartbeat_at = none;
  progress = none;
  error_message = none;
  created_at = now;
  started_at = none;
  completed_at = none;
}

-- The first loop. `stage_ids` gives the UUID that is drawn for a stage of a name.
unfoldable pub insert_stages :
    Settings
    → (String → ℕ)
    → ℕ
    → PipelineRun
    → PipelineDefinition
    → List PipelineStageDefinition
    → List StageRun
    → Result (List StageRun)
unfolding any required_capabilities_for_stage as_value set_key
insert_stages settings stage_ids now run pipeline [] stages = ok stages
insert_stages settings stage_ids now run pipeline (definition ∷ definitions) stages =
    (if any (is_stage_of run.id definition.name) stages
      then ok stages
      else required_capabilities_for_stage definition run.options >>= λ capabilities. ok (
          stages
          ++ new_stage (stage_ids definition.name) now run.id definition
              (with_backend settings pipeline (map as_value capabilities))
            ∷ []))
    >>= insert_stages settings stage_ids now run pipeline definitions

-- `stages_by_name[name]`
abbrev pub stage_by_name : ℕ → String → List StageRun → Result StageRun
stage_by_name run_id name stages =
    or_raise (find (is_stage_of run_id name) stages) Exception.key_error

abbrev pub same_dependency : StageDependency → StageDependency → Bool
same_dependency d e =
    d.stage_run_id == e.stage_run_id && d.depends_on_stage_run_id == e.depends_on_stage_run_id

-- `insert(StageDependency) … on_conflict_do_nothing()`
abbrev pub insert_dependency : StageDependency → List StageDependency → List StageDependency
insert_dependency d dependencies =
    if any (same_dependency d) dependencies then dependencies else dependencies ++ d ∷ []

unfoldable pub link_stage :
    ℕ
    → List StageRun
    → StageRun
    → List String
    → List StageDependency
    → Result (List StageDependency)
unfolding any find
link_stage run_id stages stage [] dependencies = ok dependencies
link_stage run_id stages stage (name ∷ names) dependencies =
    stage_by_name run_id name stages >>= λ upstream. link_stage run_id stages stage names (
      insert_dependency (record { stage_run_id = stage.id; depends_on_stage_run_id = upstream.id })
        dependencies)

-- The second loop.
unfoldable pub link_stages :
    ℕ
    → List StageRun
    → List PipelineStageDefinition
    → List StageDependency
    → Result (List StageDependency)
unfolding link_stage find
link_stages run_id stages [] dependencies = ok dependencies
link_stages run_id stages (definition ∷ definitions) dependencies =
    stage_by_name run_id definition.name stages >>= λ stage.
    link_stage run_id stages stage definition.depends_on dependencies
    >>= link_stages run_id stages definitions

abbrev pub reset_stage : PipelineStageDefinition → StageRun → StageRun
reset_stage definition row = record row {
  status = initial_status definition;
  attempt = 0;
  lease_owner_id = none;
  lease_token = none;
  lease_expires_at = none;
  heartbeat_at = none;
  progress = none;
  error_message = none;
  started_at = none;
  completed_at = none;
}

-- The third loop. After the second, every name is found.
unfoldable pub reset_stages : ℕ → List PipelineStageDefinition → List StageRun → List StageRun
unfolding update_where find
reset_stages run_id [] stages = stages
reset_stages run_id (definition ∷ definitions) stages =
    elim (find (is_stage_of run_id definition.name) stages) [
      | none ↦ reset_stages run_id definitions stages
      | some stage ↦
          reset_stages run_id definitions
            (update_where (λ row. row.id == stage.id) (reset_stage definition) stages)
    ]

unfoldable pub ensure_stages :
    Settings → (String → ℕ) → ℕ → PipelineRun → PipelineDefinition → Bool → Db → Result Db
unfolding insert_stages link_stages reset_stages
ensure_stages settings stage_ids now run pipeline reset db =
    insert_stages settings stage_ids now run pipeline pipeline.stages db.stages >>= λ stages.
    link_stages run.id stages pipeline.stages db.dependencies >>= λ dependencies. ok (record db {
      stages = if reset then reset_stages run.id pipeline.stages stages else stages;
      dependencies = dependencies;
    })
