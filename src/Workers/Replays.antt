-- ===== src/Workers/Replays.antt =====
-- app/services/workers.py: a completion that is sent again.
use media_engine.Prelude.{
  ℕ, Bool, true, false, ◌≡◌, ◌∙◌, refl, inl, inr, some, List, ◌==◌, arith, Bool-cases, any, ◌&&◌,
  find-update_where_other, Exception, ok, or_raise-eq-ok, Holds, Holds-bind, Holds-ok, ◌+◌,
}
use media_engine.Domain.Catalog.{get_pipeline}
use media_engine.Models.{is_completed, StageRun, Db}
use media_engine.Settings.{Settings, hours}
use media_engine.Workers.Leases.{
  locked_stage, holds_lease, validate_lease_identity, validate_active_lease, save_stage, find_run,
}
use media_engine.Workers.Requests.{UsageCompletion, persist_usage_events}
use media_engine.Workers.Contract.{ArtifactCompletion, validate_artifact_contract}
use media_engine.Workers.Publication.{ObjectStore, NewIds, publish_all}
use media_engine.Workers.StageGraph.{
  depends_directly, incomplete_dependencies, is_activated, queue_stage, activate_dependents,
}
use media_engine.Workers.Completion.{
  by_sha, completed_stage, advanced_stages, complete_active, complete,
}
use media_engine.Workers.Fencing.{saved_found}
use media_engine.Scheduling.Steps.{active_lease}
use media_engine.Scheduling.Calls.{SameGraph, publish_all-SameGraph, finish_stage-stages}

-- The completed stage, which is held with the lease it was completed under.
abbrev Kept : ℕ → ℕ → ℕ → Db × StageRun → Type 0
Kept stage_id worker_id lease_token (db', r) =
    (locked_stage stage_id db' ≡ ok r)
    × (is_completed r.status ≡ true)
    × (holds_lease r worker_id lease_token ≡ true)

held :
    (stage : StageRun) (w t : ℕ) {u : Unit {0}}
    → validate_lease_identity stage w t ≡ ok u
    → holds_lease stage w t ≡ true
held stage w t h = ground arith

not_activated : (a c : Bool) → (a && false && c) ≡ false
not_activated a c = ground arith

-- Activation leaves a completed stage as it is.
activated_found :
    (stage_id : ℕ) (now : ℕ) (stage : StageRun) (db db' : Db)
    → locked_stage stage_id db ≡ ok stage
    → db'.stages ≡ advanced_stages now stage db
    → locked_stage stage_id db' ≡ ok (completed_stage now stage)
unfolding locked_stage advanced_stages activate_dependents
activated_found stage_id now stage db db' e h =
    let saved =
      or_raise-eq-ok _ Exception.lease_lost
        (saved_found stage_id db.stages stage (completed_stage now stage) e refl) in
    rw
      (
        h,
        find-update_where_other (λ (row : StageRun). row.id == stage_id)
            (is_activated (save_stage (completed_stage now stage) db.stages) db.dependencies
              stage.id)
            queue_stage (save_stage (completed_stage now stage) db.stages)
            {a = completed_stage now stage} (λ z. refl)
            (not_activated (any (depends_directly stage.id stage.id) db.dependencies) (
              incomplete_dependencies (save_stage (completed_stage now stage) db.stages)
                db.dependencies stage.id
              == 0))
            saved,
      )
      refl

locked_stage-same :
    (stage_id : ℕ) (db db' : Db) {stage : StageRun}
    → db'.stages ≡ db.stages
    → locked_stage stage_id db ≡ ok stage
    → locked_stage stage_id db' ≡ ok stage
unfolding locked_stage
locked_stage-same stage_id db db' h e = rw h e

complete_active-Kept :
    (settings : Settings) (store : ObjectStore) (ids : NewIds)
    (now worker_id stage_id lease_token : ℕ) (stage : StageRun)
    (artifacts : List ArtifactCompletion) (usage_events : List UsageCompletion) (db : Db)
    → locked_stage stage_id db ≡ ok stage
    → holds_lease stage worker_id lease_token ≡ true
    → Holds
        (Kept stage_id worker_id lease_token)
        (complete_active settings store ids now worker_id stage artifacts usage_events db)
unfolding complete_active
complete_active-Kept settings store ids now worker_id stage_id lease_token stage artifacts
      usage_events db found mine =
    Holds-bind K (find_run stage.pipeline_run_id db) _ λ run _.
      Holds-bind K (get_pipeline run.pipeline_name (some run.pipeline_version)) _ λ pipeline _.
        Holds-bind K (validate_artifact_contract pipeline stage artifacts) _ λ u _.
          Holds-bind K (publish_all store ids expires_at stage (by_sha artifacts) db) _
            λ published p.
              Holds-bind K
                (persist_usage_events stage published.providers usage_events published.usage_events)
                _
                λ usage _.
                  let same =
                    Holds-ok (SameGraph db) _
                      (publish_all-SameGraph store ids expires_at stage (by_sha artifacts) db) p in
                  (
                    activated_found stage_id now stage published _
                        (locked_stage-same stage_id db published same.0 found)
                        (finish_stage-stages now ids.event_ids worker_id expires_at stage run usage
                          published).0,
                    refl,
                    mine,
                  )
  where
    K : Db × StageRun → Type 0
    K = Kept stage_id worker_id lease_token

    expires_at : ℕ
    expires_at = now + hours settings.pipeline_retention_hours

complete-Kept :
    (settings : Settings) (store : ObjectStore) (ids : NewIds)
    (now worker_id stage_id lease_token : ℕ) (artifacts : List ArtifactCompletion)
    (usage_events : List UsageCompletion) (db : Db)
    → Holds
        (Kept stage_id worker_id lease_token)
        (complete settings store ids now worker_id stage_id lease_token artifacts usage_events db)
unfolding complete
complete-Kept settings store ids now worker_id stage_id lease_token artifacts usage_events db =
    Holds-bind K (locked_stage stage_id db) _ λ stage e.
      elim (Bool-cases (is_completed stage.status)) [
        | inl c ↦ rw c (
            Holds-bind K (validate_lease_identity stage worker_id lease_token) _
              λ u i. (e, c, held stage worker_id lease_token i))
        | inr o ↦ rw o (
            Holds-bind K (validate_active_lease stage worker_id lease_token now) _ λ u f.
              complete_active-Kept settings store ids now worker_id stage_id lease_token stage
                artifacts usage_events db e (active_lease stage worker_id lease_token now f).0)
      ]
  where
    K : Db × StageRun → Type 0
    K = Kept stage_id worker_id lease_token

module _ (settings : Settings) (store store' : ObjectStore) (ids ids' : NewIds) where
  -- After a completion commits, and as long as the row of its stage stays as it left it, the same
  -- worker can send it again under the same stage and lease token: at any time, whatever artifacts
  -- and usage events the second call carries and whatever the bucket and the other rows then hold,
  -- it is answered with the same stage, and the second call writes nothing.
  pub complete_again :
      (now later worker_id stage_id lease_token : ℕ)
      (artifacts artifacts' : List ArtifactCompletion)
      (usage_events usage_events' : List UsageCompletion) (db db' db'' : Db) (stage : StageRun)
      → complete settings store ids now worker_id stage_id lease_token artifacts usage_events db
        ≡ ok (db', stage)
      → locked_stage stage_id db'' ≡ locked_stage stage_id db'
      → complete settings store' ids' later worker_id stage_id lease_token artifacts' usage_events'
          db''
        ≡ ok (db'', stage)
  complete_again now later worker_id stage_id lease_token artifacts artifacts' usage_events
        usage_events' db db' db'' stage h same =
      let (found, done, mine) =
        Holds-ok (Kept stage_id worker_id lease_token) _
          (complete-Kept settings store ids now worker_id stage_id lease_token artifacts
            usage_events db)
          h in
      unfold complete in rw (same ∙ found, done, mine) refl
