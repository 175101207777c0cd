-- ===== src/Scheduling/Calls.antt =====
-- The invariant of the stage table under app/services/workers.py, WorkerService.complete.
use media_engine.Prelude.{
  ℕ, true, ◌≡◌, refl, ◌∙◌, inl, inr, List, [], ◌∷◌, Memᴰ, Bool-cases, subst, subst⁻¹, some,
  Holds-ok, Result, ok, Holds, Holds-bind, ◌+◌,
}
use media_engine.Domain.Catalog.{get_pipeline}
use media_engine.Domain.Content.{content_addressed_key}
use media_engine.Models.{is_completed, is_running, StageRun, PipelineRun, AiUsageEvent, Db}
use media_engine.Settings.{Settings, hours}
use media_engine.Workers.Leases.{
  locked_stage, validate_lease_identity, validate_active_lease, find_run,
}
use media_engine.Workers.Requests.{UsageCompletion, persist_usage_events}
use media_engine.Workers.Contract.{ArtifactCompletion, validate_artifact_contract}
use media_engine.Workers.Publication.{ObjectStore, NewIds, check_object, publish, publish_all}
use media_engine.Workers.StageGraph.{derive_run_status}
use media_engine.Workers.Completion.{
  by_sha, completed_stage, advanced_stages, finish_stage, complete_active, complete,
}
use media_engine.Scheduling.Invariant.{IsScheduled, IsScheduled-of_eq}
use media_engine.Scheduling.Steps.{Scheduled, ScheduledAfter, active_lease, locked_stage-mem}
use media_engine.Scheduling.Completion.{completed-IsScheduled}

-- Publishing artifacts touches no stage, no dependency, run, request or event.
abbrev pub SameGraph : Db → Db → Type 0
SameGraph db db' =
    (db'.stages ≡ db.stages)
    × (db'.dependencies ≡ db.dependencies)
    × (db'.runs ≡ db.runs)
    × (db'.jobs ≡ db.jobs)
    × (db'.events ≡ db.events)
    × (db'.endpoints ≡ db.endpoints)

publish-SameGraph :
    (store : ObjectStore) (ids : NewIds) (expires_at : ℕ) (stage : StageRun)
    (artifact : ArtifactCompletion) (db : Db)
    → Holds (SameGraph db) (publish store ids expires_at stage artifact db)
unfolding publish
publish-SameGraph store ids expires_at stage artifact db =
    Holds-bind (SameGraph db) (content_addressed_key artifact.sha256) _ λ key _.
      Holds-bind (SameGraph db) (check_object artifact (store key)) _
        λ u _. (refl, refl, refl, refl, refl, refl)

SameGraph-trans : (a b c : Db) → SameGraph a b → SameGraph b c → SameGraph a c
SameGraph-trans a b c h k = (k.0 ∙ h.0, k.1 ∙ h.1, k.2 ∙ h.2, k.3 ∙ h.3, k.4 ∙ h.4, k.5 ∙ h.5)

Holds-mono {ℓ} :
    {A : Type ℓ} (P Q : A → Type 0) (r : Result A) → ((a : A) → P a → Q a) → Holds P r → Holds Q r
Holds-mono P Q (ok a) f h = f a h
Holds-mono P Q (Result.raised e) f h = tt

pub publish_all-SameGraph :
    (store : ObjectStore) (ids : NewIds) (expires_at : ℕ) (stage : StageRun)
    (artifacts : List ArtifactCompletion) (db : Db)
    → Holds (SameGraph db) (publish_all store ids expires_at stage artifacts db)
unfolding publish_all
publish_all-SameGraph store ids expires_at stage [] db = (refl, refl, refl, refl, refl, refl)
publish_all-SameGraph store ids expires_at stage (artifact ∷ artifacts) db =
    Holds-bind (SameGraph db) (publish store ids expires_at stage artifact db) _ λ db' e.
      Holds-mono (SameGraph db') (SameGraph db)
        (publish_all store ids expires_at stage artifacts db')
        (λ p. SameGraph-trans db db' p (
          subst (Holds (SameGraph db)) e
            (publish-SameGraph store ids expires_at stage artifact db)))
        (publish_all-SameGraph store ids expires_at stage artifacts db')

pub finish_stage-stages :
    (now : ℕ) (event_ids : ℕ → ℕ) (worker_id expires_at : ℕ) (stage : StageRun) (run : PipelineRun)
    (usage : List AiUsageEvent) (db : Db)
    → let db' = finish_stage now event_ids worker_id expires_at stage run usage db in
      (db'.stages ≡ advanced_stages now stage db) × (db'.dependencies ≡ db.dependencies)
unfolding finish_stage
finish_stage-stages now event_ids worker_id expires_at stage run usage db =
    elim (Bool-cases (is_completed (derive_run_status (advanced_stages now stage db) run.id))) [
      | inl e ↦ rw e (refl, refl)
      | inr e ↦ rw e (refl, refl)
    ]

advanced_stages-IsScheduled :
    (now : ℕ) (stage : StageRun) (db : Db)
    → Memᴰ stage db.stages
    → is_running stage.status ≡ true
    → Scheduled db
    → IsScheduled (advanced_stages now stage db) db.dependencies
unfolding advanced_stages
advanced_stages-IsScheduled now stage db m r v =
    completed-IsScheduled db.stages db.dependencies stage (completed_stage now stage) v m r refl
      refl

finish_stage-Scheduled :
    (now : ℕ) (event_ids : ℕ → ℕ) (worker_id expires_at : ℕ) (stage : StageRun) (run : PipelineRun)
    (usage : List AiUsageEvent) (db : Db)
    → Memᴰ stage db.stages
    → is_running stage.status ≡ true
    → Scheduled db
    → Scheduled (finish_stage now event_ids worker_id expires_at stage run usage db)
finish_stage-Scheduled now event_ids worker_id expires_at stage run usage db m r v =
    let (s, d) = finish_stage-stages now event_ids worker_id expires_at stage run usage db in
    IsScheduled-of_eq (advanced_stages now stage db) _ db.dependencies _ s d
      (advanced_stages-IsScheduled now stage db m r v)

complete_active-Scheduled :
    (settings : Settings) (store : ObjectStore) (ids : NewIds) (now worker_id : ℕ)
    (stage : StageRun) (artifacts : List ArtifactCompletion) (usage_events : List UsageCompletion)
    (db : Db)
    → Memᴰ stage db.stages
    → is_running stage.status ≡ true
    → Scheduled db
    → Holds ScheduledAfter
        (complete_active settings store ids now worker_id stage artifacts usage_events db)
unfolding complete_active
complete_active-Scheduled settings store ids now worker_id stage artifacts usage_events db m r v =
    Holds-bind ScheduledAfter (find_run stage.pipeline_run_id db) _ λ run _.
      Holds-bind ScheduledAfter (get_pipeline run.pipeline_name (some run.pipeline_version)) _
        λ pipeline _.
          Holds-bind ScheduledAfter (validate_artifact_contract pipeline stage artifacts) _ λ u _.
            Holds-bind ScheduledAfter (publish_all store ids expires_at stage (by_sha artifacts) db)
              _
              λ published p.
                Holds-bind ScheduledAfter
                  (persist_usage_events stage published.providers usage_events
                    published.usage_events)
                  _
                  λ usage _.
                    let same =
                      Holds-ok (SameGraph db) _
                        (publish_all-SameGraph store ids expires_at stage (by_sha artifacts) db)
                        p in
                    finish_stage-Scheduled now ids.event_ids worker_id expires_at stage run usage
                      published (subst⁻¹ (Memᴰ stage) same.0 m) r
                      (IsScheduled-of_eq db.stages _ db.dependencies _ same.0 same.1 v)
  where
    expires_at : ℕ
    expires_at = now + hours settings.pipeline_retention_hours

pub complete-Scheduled :
    (settings : Settings) (store : ObjectStore) (ids : NewIds)
    (now worker_id stage_id lease_token : ℕ) (artifacts : List ArtifactCompletion)
    (usage_events : List UsageCompletion) (db : Db)
    → Scheduled db
    → Holds ScheduledAfter
        (complete settings store ids now worker_id stage_id lease_token artifacts usage_events db)
unfolding complete
complete-Scheduled settings store ids now worker_id stage_id lease_token artifacts usage_events db
      v =
    Holds-bind ScheduledAfter (locked_stage stage_id db) _ λ stage e.
      elim (Bool-cases (is_completed stage.status)) [
        | inl c ↦ rw c (
            Holds-bind ScheduledAfter (validate_lease_identity stage worker_id lease_token) _
              λ u _. v)
        | inr o ↦ rw o (
            Holds-bind ScheduledAfter (validate_active_lease stage worker_id lease_token now) _
              λ u f.
                complete_active-Scheduled settings store ids now worker_id stage artifacts
                  usage_events db (locked_stage-mem stage_id db e).0
                  (active_lease stage worker_id lease_token now f).1 v)
      ]
