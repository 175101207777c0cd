-- ===== src/Scheduling/Leases.antt =====
-- The leases of the stage table, app/services/workers.py and app/maintenance.py, whatever calls the
-- workers and the sweeps make in any order.
use media_engine.Prelude.{
  ℕ, Bool, inl, inr, some, List, [], ◌∷◌, All, All-mem, All-intro, All-update_where, Bool-cases,
  arith, Holds-ok, Holds, Holds-bind, subst⁻¹, ◌+◌,
}
use media_engine.Domain.Catalog.{get_pipeline}
use media_engine.Models.{is_completed, StageRun, Db}
use media_engine.Settings.{Settings, hours}
use media_engine.Workers.Leases.{
  save_stage, find_run, locked_stage, validate_active_lease, validate_lease_identity,
}
use media_engine.Workers.Requests.{UsageCompletion, persist_usage_events}
use media_engine.Workers.Contract.{ArtifactCompletion, validate_artifact_contract}
use media_engine.Workers.Publication.{ObjectStore, NewIds, publish_all}
use media_engine.Workers.StageGraph.{is_activated, queue_stage, activate_dependents}
use media_engine.Workers.Completion.{
  by_sha, completed_stage, advanced_stages, complete_active, complete,
}
use media_engine.Maintenance.{
  expired_stages, recovered_stage, recover_stage, recover_stages, recover_expired_leases_once,
}
use media_engine.Scheduling.Steps.{locked_stage-mem}
use media_engine.Scheduling.Calls.{SameGraph, publish_all-SameGraph, finish_stage-stages}
use media_engine.Scheduling.Progress.{Step, Reach}
use media_engine.Scheduling.Recovery.{recover_stage-stages, expired_stages-mem}
use media_engine.Scheduling.Rows.{
  IsLeasable, Leasable, LeasableAfter, save_stage-IsLeasable, recovered-IsLeasable,
  completed-IsLeasable, queued-IsLeasable, claim-Leasable, heartbeat-Leasable, fail-Leasable,
}

advanced_stages-IsLeasable :
    (now : ℕ) (stage : StageRun) (db : Db)
    → IsLeasable stage
    → Leasable db
    → All IsLeasable (advanced_stages now stage db)
unfolding advanced_stages activate_dependents
advanced_stages-IsLeasable now stage db k v =
    All-update_where IsLeasable
      (is_activated (save_stage (completed_stage now stage) db.stages) db.dependencies stage.id)
      queue_stage (save_stage (completed_stage now stage) db.stages)
      (λ s a. queued-IsLeasable s (ground arith))
      (save_stage-IsLeasable (completed_stage now stage) db.stages
        (completed-IsLeasable now stage k) v)

complete_active-Leasable :
    (settings : Settings) (store : ObjectStore) (ids : NewIds) (now worker_id : ℕ)
    (stage : StageRun) (artifacts : List ArtifactCompletion) (usage_events : List UsageCompletion)
    (db : Db)
    → IsLeasable stage
    → Leasable db
    → Holds LeasableAfter
        (complete_active settings store ids now worker_id stage artifacts usage_events db)
unfolding complete_active
complete_active-Leasable settings store ids now worker_id stage artifacts usage_events db k v =
    Holds-bind LeasableAfter (find_run stage.pipeline_run_id db) _ λ run _.
      Holds-bind LeasableAfter (get_pipeline run.pipeline_name (some run.pipeline_version)) _
        λ pipeline _.
          Holds-bind LeasableAfter (validate_artifact_contract pipeline stage artifacts) _ λ u _.
            Holds-bind LeasableAfter (publish_all store ids expires_at stage (by_sha artifacts) db)
              _
              λ published p.
                Holds-bind LeasableAfter
                  (persist_usage_events stage published.providers usage_events
                    published.usage_events)
                  _
                  λ usage _.
                    let same =
                      Holds-ok (SameGraph db) _
                        (publish_all-SameGraph store ids expires_at stage (by_sha artifacts) db)
                        p in
                    subst⁻¹ (All IsLeasable)
                      (finish_stage-stages now ids.event_ids worker_id expires_at stage run usage
                        published).0
                      (advanced_stages-IsLeasable now stage published k
                        (subst⁻¹ (All IsLeasable) same.0 v))
  where
    expires_at : ℕ
    expires_at = now + hours settings.pipeline_retention_hours

complete-Leasable :
    (settings : Settings) (store : ObjectStore) (ids : NewIds)
    (now worker_id stage_id lease_token : ℕ) (artifacts : List ArtifactCompletion)
    (usage_events : List UsageCompletion) (db : Db)
    → Leasable db
    → Holds LeasableAfter
        (complete settings store ids now worker_id stage_id lease_token artifacts usage_events db)
unfolding complete
complete-Leasable settings store ids now worker_id stage_id lease_token artifacts usage_events db
      v =
    Holds-bind LeasableAfter (locked_stage stage_id db) _ λ stage e.
      elim (Bool-cases (is_completed stage.status)) [
        | inl c ↦ rw c (
            Holds-bind LeasableAfter (validate_lease_identity stage worker_id lease_token) _
              λ u _. v)
        | inr o ↦ rw o (
            Holds-bind LeasableAfter (validate_active_lease stage worker_id lease_token now) _
              λ u f.
                complete_active-Leasable settings store ids now worker_id stage artifacts
                  usage_events db
                  (All-mem IsLeasable db.stages (locked_stage-mem stage_id db e).0 v) v)
      ]

recover_stages-Leasable :
    (now : ℕ) (event_ids : ℕ → ℕ) (rows : List StageRun) (db : Db)
    → All IsLeasable rows
    → Leasable db
    → Leasable (recover_stages now event_ids rows db)
unfolding recover_stages
recover_stages-Leasable now event_ids [] db o v = v
recover_stages-Leasable now event_ids (row ∷ rows) db o v =
    recover_stages-Leasable now event_ids rows (recover_stage now event_ids row db) o.1 (
      subst⁻¹ (All IsLeasable) (recover_stage-stages now event_ids row db).0 (
        save_stage-IsLeasable (recovered_stage now row) db.stages (recovered-IsLeasable now row o.0)
          v))

recover_expired_leases_once-Leasable :
    (settings : Settings) (now : ℕ) (locked : ℕ → Bool) (event_ids : ℕ → ℕ) (db : Db)
    → Leasable db
    → Leasable (recover_expired_leases_once settings now locked event_ids db)
unfolding recover_expired_leases_once
recover_expired_leases_once-Leasable settings now locked event_ids db v =
    recover_stages-Leasable now event_ids (expired_stages settings now locked db.stages) db
      (All-intro IsLeasable _ (λ s m.
        All-mem IsLeasable db.stages (expired_stages-mem settings now locked db.stages m).0 v))
      v

Step-Leasable : {db db' : Db} → Step db db' → Leasable db → Leasable db'
Step-Leasable {db} (Step.claims settings now w l locked r e) v =
    Holds-ok LeasableAfter _ (claim-Leasable settings now w l locked db v) e
Step-Leasable {db} (Step.beats settings now w i l p r e) v =
    Holds-ok LeasableAfter _ (heartbeat-Leasable settings now w i l p db v) e
Step-Leasable {db} (Step.completes settings store ids now w i l a u r e) v =
    Holds-ok LeasableAfter _ (complete-Leasable settings store ids now w i l a u db v) e
Step-Leasable {db} (Step.fails now ids w i l m u r e) v =
    Holds-ok LeasableAfter _ (fail-Leasable now ids w i l m u db v) e
Step-Leasable {db} (Step.recovers settings now locked ids e) v =
    subst⁻¹ Leasable e (recover_expired_leases_once-Leasable settings now locked ids db v)

-- If every row of the stage table is leasable, every row stays so under any sequence of claims,
-- heartbeats, completions, failures and sweeps that commit. Leasable means: the attempts are at
-- most `max_attempts`, and fewer while the stage is blocked or queued; the row has a time limit
-- exactly while it runs; and while it runs it has an owner and a lease token.
pub Reach-Leasable : {db db' : Db} → Reach db db' → Leasable db → Leasable db'
Reach-Leasable Reach.here v = v
Reach-Leasable (Reach.next r s) v = Step-Leasable s (Reach-Leasable r v)
