-- ===== src/Scheduling/Rows.antt =====
-- The rows of the stage table under the calls of the workers and the sweeps: attempts and leases.
use media_engine.Prelude.{
  ℕ, String, Bool, true, false, ◌≡◌, refl, inl, inr, ◌≤◌, ◌<◌, Option, List, All, All-mem,
  All-update_where, Bool-cases, Option-cases, arith, Holds, Holds-bind, ◌==◌, ◌||◌, is_none, find,
  find-mem, not,
}
use media_engine.Models.{Status, is_blocked, is_queued, is_running, StageRun, Db}
use media_engine.Settings.{Settings}
use media_engine.Workers.Leases.{
  claim, heartbeat, save_stage, find_worker, find_run, locked_stage, validate_active_lease, leased,
  may_run, claim_candidates, grant, is_active_state,
}
use media_engine.Workers.Requests.{UsageCompletion, persist_usage_events}
use media_engine.Workers.Failure.{fail, failed_stage, will_retry}
use media_engine.Workers.StageGraph.{queue_stage}
use media_engine.Workers.Completion.{completed_stage}
use media_engine.Maintenance.{recovered_stage}
use media_engine.Scheduling.Steps.{claim_candidates-mem, active_lease, locked_stage-mem}

abbrev pub is_waiting_stage : Status → Bool
is_waiting_stage status = is_blocked status || is_queued status

-- A stage is handed out at most `max_attempts` times, and there is an attempt left while it waits
-- for a worker. It has a time limit exactly while it runs, and then an owner and a token too.
pub record IsLeasable (s : StageRun) : Type 0 where
  pub bound : s.attempt ≤ s.max_attempts
  pub attempt_left : is_waiting_stage s.status ≡ true → s.attempt < s.max_attempts
  pub limited : is_none s.lease_expires_at ≡ not (is_running s.status)
  pub owned :
      is_running s.status ≡ true
      → (is_none s.lease_owner_id ≡ false) × (is_none s.lease_token ≡ false)

abbrev pub Leasable : Db → Type 0
Leasable db = All IsLeasable db.stages

abbrev pub LeasableAfter : {A : Type 0} → Db × A → Type 0
LeasableAfter r = Leasable r.0

pub save_stage-IsLeasable :
    (s' : StageRun) (stages : List StageRun)
    → IsLeasable s'
    → All IsLeasable stages
    → All IsLeasable (save_stage s' stages)
unfolding save_stage
save_stage-IsLeasable s' stages k v =
    All-update_where IsLeasable (λ row. row.id == s'.id) (λ _. s') stages (λ _ _ _. k) v

leased-IsLeasable :
    (settings : Settings) (now w t : ℕ) (s : StageRun)
    → is_queued s.status ≡ true
    → IsLeasable s
    → IsLeasable (leased settings now w t s)
leased-IsLeasable settings now w t s q k = record {
  bound = ground (arith, k.attempt_left);
  attempt_left = λ h. cc;
  limited = refl;
  owned = λ _. (refl, refl);
}

failed-IsLeasable :
    (now : ℕ) (message : String) (s : StageRun)
    → IsLeasable s
    → IsLeasable (failed_stage now message s)
failed-IsLeasable now message s k = elim (Bool-cases (will_retry s)) [
  | inl r ↦ rw r (record {
    bound = k.bound;
    attempt_left = λ _. ground arith;
    limited = refl;
    owned = λ h. cc;
  })
  | inr r ↦
      rw r (record { bound = k.bound; attempt_left = λ h. cc; limited = refl; owned = λ h. cc })
]

pub recovered-IsLeasable :
    (now : ℕ) (s : StageRun) → IsLeasable s → IsLeasable (recovered_stage now s)
recovered-IsLeasable now s k = elim (Bool-cases (will_retry s)) [
  | inl r ↦ rw r (record {
    bound = k.bound;
    attempt_left = λ _. ground arith;
    limited = refl;
    owned = λ h. cc;
  })
  | inr r ↦
      rw r (record { bound = k.bound; attempt_left = λ h. cc; limited = refl; owned = λ h. cc })
]

pub completed-IsLeasable :
    (now : ℕ) (s : StageRun) → IsLeasable s → IsLeasable (completed_stage now s)
completed-IsLeasable now s k = record {
  bound = k.bound;
  attempt_left = λ h. cc;
  limited = refl;
  owned = λ h. cc;
}

pub queued-IsLeasable :
    (s : StageRun) → is_blocked s.status ≡ true → IsLeasable s → IsLeasable (queue_stage s)
queued-IsLeasable s b k = record {
  bound = k.bound;
  attempt_left = λ _. ground (arith, k.attempt_left);
  limited = ground (arith, k.limited);
  owned = λ h. cc;
}

pub claim-Leasable :
    (settings : Settings) (now worker_id lease_token : ℕ) (locked : ℕ → Bool) (db : Db)
    → Leasable db
    → Holds LeasableAfter (claim settings now worker_id lease_token locked db)
unfolding claim grant
claim-Leasable settings now worker_id lease_token locked db v =
    Holds-bind LeasableAfter (find_worker worker_id db) _ λ worker _.
      elim (Bool-cases (is_active_state worker.desired_state)) [
        | inl e ↦
            rw e
              (elim (Option-cases
                (find (may_run worker db.providers) (claim_candidates locked db.stages))) [
                  | inl n ↦ rw n v
                  | inr (stage, n) ↦
                      let (m, q) = claim_candidates-mem locked db.stages (
                        find-mem (may_run worker db.providers) (claim_candidates locked db.stages)
                          n) in
                      rw n (
                        Holds-bind LeasableAfter (find_run stage.pipeline_run_id db) _ λ run _.
                          save_stage-IsLeasable (leased settings now worker_id lease_token stage)
                            db.stages
                            (leased-IsLeasable settings now worker_id lease_token stage q
                              (All-mem IsLeasable db.stages m v))
                            v)
                ])
        | inr e ↦ rw e v
      ]

pub heartbeat-Leasable :
    (settings : Settings) (now worker_id stage_id lease_token : ℕ) (progress : Option ℕ) (db : Db)
    → Leasable db
    → Holds LeasableAfter (heartbeat settings now worker_id stage_id lease_token progress db)
unfolding heartbeat
heartbeat-Leasable settings now worker_id stage_id lease_token progress db v =
    Holds-bind LeasableAfter (locked_stage stage_id db) _ λ stage e.
      Holds-bind LeasableAfter (validate_active_lease stage worker_id lease_token now) _ λ u f.
        let k = All-mem IsLeasable db.stages (locked_stage-mem stage_id db e).0 v in
        let running = (active_lease stage worker_id lease_token now f).1 in
        save_stage-IsLeasable _ db.stages
          (record {
            bound = k.bound;
            attempt_left = k.attempt_left;
            limited = ground arith;
            owned = k.owned;
          })
          v

pub fail-Leasable :
    (now : ℕ) (event_ids : ℕ → ℕ) (worker_id stage_id lease_token : ℕ) (error_message : String)
    (usage_events : List UsageCompletion) (db : Db)
    → Leasable db
    → Holds LeasableAfter
        (fail now event_ids worker_id stage_id lease_token error_message usage_events db)
unfolding fail
fail-Leasable now event_ids worker_id stage_id lease_token error_message usage_events db v =
    Holds-bind LeasableAfter (locked_stage stage_id db) _ λ stage e.
      Holds-bind LeasableAfter (validate_active_lease stage worker_id lease_token now) _ λ u f.
        Holds-bind LeasableAfter
          (persist_usage_events stage db.providers usage_events db.usage_events) _
          λ usage _. Holds-bind LeasableAfter (find_run stage.pipeline_run_id db) _ λ run _.
            save_stage-IsLeasable (failed_stage now error_message stage) db.stages
              (failed-IsLeasable now error_message stage
                (All-mem IsLeasable db.stages (locked_stage-mem stage_id db e).0 v))
              v
