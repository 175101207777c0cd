-- ===== src/Workers/StageGraph.antt =====
-- app/services/workers.py: _activate_dependents, _derive_run_status and
-- _extend_run_artifact_retention.
use media_engine.Prelude.{
  ℕ, Bool, List, [], ◌∷◌, ◌&&◌, not, ◌==◌, ◌+◌, if◌then◌else◌, all, any, select, length,
  update_where, max,
}
use media_engine.Models.{
  Status, is_blocked, is_running, is_completed, is_failed, StageRun, StageDependency, Blob,
  Artifact, Db,
}

-- The rows of `dependency` joined to its upstream stage, where that has not completed.
abbrev pub is_pending_upstream : StageDependency → StageRun → Bool
is_pending_upstream dependency stage =
    stage.id == dependency.depends_on_stage_run_id && not (is_completed stage.status)

-- The `func.count()` over the dependencies of one stage.
unfoldable pub incomplete_dependencies : List StageRun → List StageDependency → ℕ → ℕ
unfolding select
incomplete_dependencies stages [] stage_id = 0
incomplete_dependencies stages (dependency ∷ dependencies) stage_id =
    (if dependency.stage_run_id == stage_id
      then length (select (is_pending_upstream dependency) stages)
      else 0)
    + incomplete_dependencies stages dependencies stage_id

abbrev pub depends_directly : ℕ → ℕ → StageDependency → Bool
depends_directly stage_id upstream_id dependency =
    dependency.stage_run_id == stage_id && dependency.depends_on_stage_run_id == upstream_id

abbrev pub is_activated : List StageRun → List StageDependency → ℕ → StageRun → Bool
is_activated stages dependencies completed_id row =
    any (depends_directly row.id completed_id) dependencies
    && is_blocked row.status
    && incomplete_dependencies stages dependencies row.id == 0

abbrev pub queue_stage : StageRun → StageRun
queue_stage row = record row { status = Status.queued }

-- `_activate_dependents`. A round of its loop reads of the other rows only which have completed,
-- and queues a blocked row, so that the rounds amount to one update over the rows as they were.
unfoldable pub activate_dependents : List StageDependency → ℕ → List StageRun → List StageRun
unfolding any incomplete_dependencies update_where
activate_dependents dependencies completed_id stages =
    update_where (is_activated stages dependencies completed_id) queue_stage stages

abbrev pub in_run : ℕ → StageRun → Bool
in_run run_id row = row.pipeline_run_id == run_id

abbrev is_nil : List StageRun → Bool
is_nil [] = Bool.true
is_nil (row ∷ rows) = Bool.false

-- The tests of `_derive_run_status`, on the stages of the run.
unfoldable pub derived_status : List StageRun → Status
unfolding all any
derived_status rows =
    if not (is_nil rows) && all (λ row. is_completed row.status) rows
    then Status.completed
    else if any (λ row. is_failed row.status) rows
    then Status.failed
    else if any (λ row. is_running row.status) rows
    then Status.running
    else Status.queued

unfoldable pub derive_run_status : List StageRun → ℕ → Status
unfolding derived_status select
derive_run_status stages run_id = derived_status (select (in_run run_id) stages)

abbrev pub of_run : ℕ → Artifact → Bool
of_run run_id artifact = artifact.pipeline_run_id == run_id

unfoldable pub extend_run_artifact_retention : ℕ → ℕ → Db → Db
unfolding any update_where
extend_run_artifact_retention run_id expires_at db = record db {
  artifacts =
      update_where (of_run run_id) (λ artifact. record artifact { expires_at = expires_at })
        db.artifacts;
  blobs =
      update_where
        (λ (blob : Blob).
          any (λ (artifact : Artifact). of_run run_id artifact && artifact.blob_id == blob.id)
            db.artifacts)
        (λ blob. record blob { expires_at = max blob.expires_at expires_at }) db.blobs;
}
