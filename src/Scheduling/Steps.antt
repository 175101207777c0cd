-- ===== src/Scheduling/Steps.antt =====
-- The invariant of the stage table under app/services/workers.py, claim, heartbeat and fail.
use media_engine.Prelude.{
  ℕ, String, Bool, true, false, Option, some, List, Memᴰ, ◌≡◌, refl, inl, inr, not, ◌==◌, ==_iff,
  arith, find, find_holds, find-mem, mem-take, mem-select, mem-order_by, Bool-cases, Option-cases,
  ok, Holds, Holds-bind, or_raise-eq-ok, select, order_by,
}
use media_engine.Models.{
  Status, is_queued, is_running, is_blocked, is_completed, StageRun, Worker, Db,
}
use media_engine.Settings.{Settings}
use media_engine.Workers.Leases.{
  find_worker, find_run, locked_stage, validate_active_lease, holds_lease, lease_over, leased,
  may_run, claim_candidates, claims_before, grant, claim, heartbeat, save_worker, seen_online,
  is_active_state,
}
use media_engine.Workers.Requests.{UsageCompletion, persist_usage_events}
use media_engine.Workers.Failure.{status_after, fail, failed_stage, will_retry}
use media_engine.Scheduling.Invariant.{IsScheduled, IsNeutral, save_stage-IsScheduled}

abbrev pub Scheduled : Db → Type 0
Scheduled db = IsScheduled db.stages db.dependencies

-- The database that a call commits is scheduled.
abbrev pub ScheduledAfter : {A : Type 0} → Db × A → Type 0
ScheduledAfter (db, a) = Scheduled db

-- A candidate for a claim is a queued row of the table.
pub claim_candidates-mem :
    (locked : ℕ → Bool) (stages : List StageRun) {s : StageRun}
    → Memᴰ s (claim_candidates locked stages)
    → Memᴰ s stages × (is_queued s.status ≡ true)
unfolding claim_candidates
claim_candidates-mem locked stages m =
    mem-select (λ stage. is_queued stage.status) stages
      (mem-order_by claims_before (select (λ stage. is_queued stage.status) stages)
        (mem-select (λ stage. not (locked stage.id))
          (order_by claims_before (select (λ stage. is_queued stage.status) stages))
          (mem-take 50 _ m)).0)

queued_open : (s : Status) → is_queued s ≡ true → (is_blocked s ≡ false) × (is_completed s ≡ false)
queued_open s h = ground arith

pub running_open :
    (s : Status) → is_running s ≡ true → (is_blocked s ≡ false) × (is_completed s ≡ false)
running_open s h = ground arith

grant-Scheduled :
    (settings : Settings) (now worker_id lease_token : ℕ) (stage : StageRun) (db : Db)
    → Memᴰ stage db.stages
    → is_queued stage.status ≡ true
    → Scheduled db
    → Holds ScheduledAfter (grant settings now worker_id lease_token stage db)
unfolding grant
grant-Scheduled settings now worker_id lease_token stage db m q v =
    Holds-bind ScheduledAfter (find_run stage.pipeline_run_id db) _ λ run _.
      save_stage-IsScheduled db.stages db.dependencies stage
        (leased settings now worker_id lease_token stage) m
        (ground (arith, queued_open stage.status)) v

pub claim-Scheduled :
    (settings : Settings) (now worker_id lease_token : ℕ) (locked : ℕ → Bool) (db : Db)
    → Scheduled db
    → Holds ScheduledAfter (claim settings now worker_id lease_token locked db)
unfolding claim
claim-Scheduled settings now worker_id lease_token locked db v =
    Holds-bind ScheduledAfter (find_worker worker_id db) _ λ worker _.
      elim (Bool-cases (is_active_state worker.desired_state)) [
        | inl e ↦ rw e (elim (Option-cases (find (may_run worker db.providers) candidates)) [
          | inl n ↦ rw n v
          | inr (stage, n) ↦ rw n (granted worker stage n)
        ])
        | inr e ↦ rw e v
      ]
  where
    candidates : List StageRun
    candidates = claim_candidates locked db.stages

    granted :
        (worker : Worker) (stage : StageRun)
        → find (may_run worker db.providers) candidates ≡ some stage
        → Holds ScheduledAfter (
            grant settings now worker_id lease_token stage
              (record db { workers = save_worker (seen_online now worker) db.workers }))
    granted worker stage n =
        let (m, q) =
          claim_candidates-mem locked db.stages
            (find-mem (may_run worker db.providers) candidates n) in
        grant-Scheduled settings now worker_id lease_token stage _ m q v

-- What a validated lease says of its stage.
pub active_lease :
    (stage : StageRun) (worker_id lease_token now : ℕ) {u : Unit {0}}
    → validate_active_lease stage worker_id lease_token now ≡ ok u
    → (holds_lease stage worker_id lease_token ≡ true)
      × (is_running stage.status ≡ true)
      × (lease_over stage.lease_expires_at now ≡ false)
active_lease stage worker_id lease_token now h = ground arith

pub locked_stage-mem :
    (stage_id : ℕ) (db : Db) {stage : StageRun}
    → locked_stage stage_id db ≡ ok stage
    → Memᴰ stage db.stages × (stage.id ≡ stage_id)
unfolding locked_stage
locked_stage-mem stage_id db h =
    let e = or_raise-eq-ok _ _ h in
    (
      find-mem (λ row. row.id == stage_id) db.stages e,
      (==_iff _ stage_id).0 (find_holds (λ row. row.id == stage_id) db.stages e),
    )

pub heartbeat-Scheduled :
    (settings : Settings) (now worker_id stage_id lease_token : ℕ) (progress : Option ℕ) (db : Db)
    → Scheduled db
    → Holds ScheduledAfter (heartbeat settings now worker_id stage_id lease_token progress db)
unfolding heartbeat
heartbeat-Scheduled settings now worker_id stage_id lease_token progress db v =
    Holds-bind ScheduledAfter (locked_stage stage_id db) _ λ stage e.
      Holds-bind ScheduledAfter (validate_active_lease stage worker_id lease_token now) _ λ u f.
        save_stage-IsScheduled db.stages db.dependencies stage _ (locked_stage-mem stage_id db e).0
          (record { same_id = refl; same_blocked = refl; same_completed = refl }) v

-- A running stage that takes a status which is neither blocked nor completed.
closed-IsNeutral :
    (s s' : StageRun)
    → s'.id ≡ s.id
    → is_running s.status ≡ true
    → (is_blocked s'.status ≡ false) × (is_completed s'.status ≡ false)
    → IsNeutral s s'
closed-IsNeutral s s' i r o = ground (arith, running_open s.status)

pub failed_open :
    (retry : Bool)
    → (is_blocked (status_after retry) ≡ false) × (is_completed (status_after retry) ≡ false)
failed_open true = (refl, refl)
failed_open false = (refl, refl)

pub fail-Scheduled :
    (now : ℕ) (event_ids : ℕ → ℕ) (worker_id stage_id lease_token : ℕ) (error_message : String)
    (usage_events : List UsageCompletion) (db : Db)
    → Scheduled db
    → Holds ScheduledAfter
        (fail now event_ids worker_id stage_id lease_token error_message usage_events db)
unfolding fail
fail-Scheduled now event_ids worker_id stage_id lease_token error_message usage_events db v =
    Holds-bind ScheduledAfter (locked_stage stage_id db) _ λ stage e.
      Holds-bind ScheduledAfter (validate_active_lease stage worker_id lease_token now) _ λ u f.
        Holds-bind ScheduledAfter
          (persist_usage_events stage db.providers usage_events db.usage_events) _
          λ usage _. Holds-bind ScheduledAfter (find_run stage.pipeline_run_id db) _ λ run _.
            save_stage-IsScheduled db.stages db.dependencies stage _
              (locked_stage-mem stage_id db e).0
              (closed-IsNeutral stage (failed_stage now error_message stage) refl
                (active_lease stage worker_id lease_token now f).1 (failed_open (will_retry stage)))
              v
