-- ===== src/Scheduling/Progress.antt =====
-- Stages that wait for each other, under any sequence of calls of app/services/workers.py and sweeps
-- of app/maintenance.py, and submissions to app/services/jobs.py.
use media_engine.Prelude.{
  ℕ, zero, suc, String, Bool, false, ◌≡◌, refl, ◌⊎◌, inl, inr, ◌<◌, Option, List, Memᴰ, Bool-cases,
  arith, ok, some, find, Holds-ok, ap, subst, subst⁻¹,
}
use media_engine.Domain.Catalog.{get_pipeline}
use media_engine.Models.{
  Status, is_blocked, is_completed, StageRun, StageDependency, Blob, PipelineRun, JobRequest, Db,
}
use media_engine.Settings.{Settings, IsValid}
use media_engine.Workers.Leases.{claim, heartbeat}
use media_engine.Workers.Requests.{UsageCompletion}
use media_engine.Workers.Failure.{fail}
use media_engine.Workers.Contract.{ArtifactCompletion}
use media_engine.Workers.Publication.{ObjectStore, NewIds}
use media_engine.Workers.Completion.{complete}
use media_engine.Maintenance.{recover_expired_leases_once}
use media_engine.Jobs.Requests.{
  Surroundings, Submission, JobSubmissionResult, run_key_of, source_blob,
}
use media_engine.Jobs.Submission.{is_run_of_key, submit}
use media_engine.Scheduling.Invariant.{IsScheduled}
use media_engine.Scheduling.Creation.{AreDrawn}
use media_engine.Scheduling.Submitting.{IsGoingOn, submit-Scheduled}
use media_engine.Scheduling.Steps.{
  Scheduled, ScheduledAfter, claim-Scheduled, heartbeat-Scheduled, fail-Scheduled,
}
use media_engine.Scheduling.Calls.{complete-Scheduled}
use media_engine.Scheduling.Recovery.{recover_expired_leases_once-Scheduled}

-- `t` is `s`, or a stage that it needs, directly or not.
pub data Needs (dependencies : List StageDependency) : ℕ → ℕ → Type 0 where
  itself : {s t : ℕ} → t ≡ s → Needs dependencies s t
  through :
      {s t : ℕ} (e : StageDependency)
      → Memᴰ e dependencies
      → e.stage_run_id ≡ s
      → Needs dependencies e.depends_on_stage_run_id t
      → Needs dependencies s t

abbrev pub Live : Status → Type 0
Live s = (s ≡ Status.queued) ⊎ (s ≡ Status.running) ⊎ (s ≡ Status.failed)

open-Live : (s : Status) → is_blocked s ≡ false → is_completed s ≡ false → Live s
open-Live Status.blocked b c = cc
open-Live Status.queued b c = inl refl
open-Live Status.running b c = inr (inl refl)
open-Live Status.completed b c = cc
open-Live Status.failed b c = inr (inr refl)

module _ (stages : List StageRun) (dependencies : List StageDependency)
    (v : IsScheduled stages dependencies) where
  Live-below :
      (k : ℕ) (s : StageRun)
      → v.rank s.id < k
      → Memᴰ s stages
      → is_completed s.status ≡ false
      → (t : StageRun) × Memᴰ t stages × Needs dependencies s.id t.id × Live t.status
  Live-below zero s r m c = absurd (omega arith)
  Live-below (suc k) s r m c = elim (Bool-cases (is_blocked s.status)) [
    | inr open_row ↦ (s, m, Needs.itself refl, open-Live s.status open_row c)
    | inl waiting ↦
        let (e, t, me, mt, es, et, ct) = v.blocked_waits s m waiting in
        let (u, mu, n, l) =
          Live-below k t (omega (arith, v.falls e me, ap v.rank es, ap v.rank et)) mt ct in
        (u, mu, Needs.through e me es (subst (λ i. Needs dependencies i u.id) et n), l)
  ]

-- One call of the workers' API or one sweep of the scheduler that commits.
pub data Step (db : Db) (db' : Db) : Type 0 where
  claims :
      (settings : Settings) (now worker_id lease_token : ℕ) (locked : ℕ → Bool)
      (r : Option StageRun)
      → claim settings now worker_id lease_token locked db ≡ ok (db', r)
      → Step db db'
  beats :
      (settings : Settings) (now worker_id stage_id lease_token : ℕ) (progress : Option ℕ)
      (r : StageRun)
      → heartbeat settings now worker_id stage_id lease_token progress db ≡ ok (db', r)
      → Step db db'
  completes :
      (settings : Settings) (store : ObjectStore) (ids : NewIds)
      (now worker_id stage_id lease_token : ℕ) (artifacts : List ArtifactCompletion)
      (usage_events : List UsageCompletion) (r : StageRun)
      → complete settings store ids now worker_id stage_id lease_token artifacts usage_events db
        ≡ ok (db', r)
      → Step db db'
  fails :
      (now : ℕ) (event_ids : ℕ → ℕ) (worker_id stage_id lease_token : ℕ) (error_message : String)
      (usage_events : List UsageCompletion) (r : StageRun)
      → fail now event_ids worker_id stage_id lease_token error_message usage_events db
        ≡ ok (db', r)
      → Step db db'
  recovers :
      (settings : Settings) (now : ℕ) (locked : ℕ → Bool) (event_ids : ℕ → ℕ)
      → db' ≡ recover_expired_leases_once settings now locked event_ids db
      → Step db db'

pub data Reach (db : Db) : Db → Type 0 where
  here : Reach db db
  next : {d e : Db} → Reach db d → Step d e → Reach db e

Step-Scheduled : {db db' : Db} → Step db db' → Scheduled db → Scheduled db'
Step-Scheduled {db} (Step.claims settings now w l locked r e) v =
    Holds-ok ScheduledAfter _ (claim-Scheduled settings now w l locked db v) e
Step-Scheduled {db} (Step.beats settings now w i l p r e) v =
    Holds-ok ScheduledAfter _ (heartbeat-Scheduled settings now w i l p db v) e
Step-Scheduled {db} (Step.completes settings store ids now w i l a u r e) v =
    Holds-ok ScheduledAfter _ (complete-Scheduled settings store ids now w i l a u db v) e
Step-Scheduled {db} (Step.fails now ids w i l m u r e) v =
    Holds-ok ScheduledAfter _ (fail-Scheduled now ids w i l m u db v) e
Step-Scheduled {db} (Step.recovers settings now locked ids e) v =
    subst⁻¹ Scheduled e (recover_expired_leases_once-Scheduled settings now locked ids db v)

-- A step, or a submission that returns, for a pipeline of the catalogue and under valid settings. Its
-- UUIDs are new, and a run that has its run key goes on.
pub data Activity (db db' : Db) : Type 0 where
  works : Step db db' → Activity db db'
  submits :
      (settings : Settings) (around : Surroundings) (committed : List JobRequest)
      (request : Submission) (name : String) (version : Option String)
      (result : JobSubmissionResult)
      → get_pipeline name version ≡ ok request.pipeline
      → AreDrawn around.stage_ids around.run_id request.pipeline.stages db
      → IsValid settings
      → ((blob : Blob) (run : PipelineRun)
          → source_blob around request db ≡ ok blob
          → find (is_run_of_key (run_key_of around request blob)) db.runs ≡ some run
          → IsGoingOn around request.pipeline db run)
      → submit settings around committed request db ≡ ok (db', result)
      → Activity db db'

pub data History (db : Db) : Db → Type 0 where
  start : History db db
  then_activity : {d e : Db} → History db d → Activity d e → History db e

Activity-Scheduled : {db db' : Db} → Activity db db' → Scheduled db → Scheduled db'
Activity-Scheduled (Activity.works s) v = Step-Scheduled s v
Activity-Scheduled {db}
      (Activity.submits settings around committed request name version result known drawn valid
        going_on e)
      v =
    submit-Scheduled settings around committed request name version db known drawn valid going_on v
      e

-- The invariant of the stage table holds after any sequence of activities, if it held before.
History-Scheduled : {db db' : Db} → History db db' → Scheduled db → Scheduled db'
History-Scheduled History.start v = v
History-Scheduled (History.then_activity h a) v = Activity-Scheduled a (History-Scheduled h v)

-- From a scheduled stage table, after any sequence of claims, heartbeats, completions, failures and
-- sweeps that commit, and of submissions: for every stage that has not completed there is a stage that
-- is queued, running or failed, and that is the stage itself or one that it needs, directly or through
-- others. So no set of stages ever waits only for itself. The submissions are those that return, under
-- valid settings and for a pipeline of the catalogue, that draw new UUIDs, and whose run, if one has
-- their run key, serves them from the cache, or is within its retention and running, or queued with
-- all its stages and dependencies in the tables.
pub unfinished_progress :
    (db db' : Db) (s : StageRun)
    → Scheduled db
    → History db db'
    → Memᴰ s db'.stages
    → is_completed s.status ≡ false
    → (t : StageRun) × Memᴰ t db'.stages × Needs db'.dependencies s.id t.id × Live t.status
unfinished_progress db db' s v r m c =
    let w = History-Scheduled r v in
    Live-below db'.stages db'.dependencies w (suc (w.rank s.id)) s (omega arith) m c
