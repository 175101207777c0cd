-- ===== src/Workers/Claims.antt =====
-- What a claim of app/services/workers.py gives a worker, and whom it shuts out.
use media_engine.Prelude.{
  ℕ, Bool, true, false, ◌≡◌, refl, ◌∙◌, ap, ◌⊎◌, inl, inr, Option, none, some, List, Memᴰ, not,
  ◌==◌, ==_iff, arith, Bool-cases, Option-cases, find, find_holds, find-mem, find-none, mem-take,
  mem-select, select, order_by, subst⁻¹, Exception, ok, or_raise, Holds, Holds-bind, Holds-ok,
  &&-true,
}
use media_engine.Models.{is_queued, Worker, StageRun, Db}
use media_engine.Settings.{Settings}
use media_engine.Workers.Capabilities.{capabilities_satisfy, providers_enabled}
use media_engine.Workers.Leases.{
  find_worker, find_run, locked_stage, holds_lease, leased, may_run, enabled_providers,
  claim_candidates, claims_before, grant, claim, save_stage, is_active_state,
}
use media_engine.Workers.Publication.{ObjectStore, NewIds}
use media_engine.Workers.Fencing.{Report, Refused, not_held-Refused, saved_found}
use media_engine.Scheduling.Steps.{Scheduled, claim_candidates-mem}

candidate_unlocked :
    (locked : ℕ → Bool) (stages : List StageRun) {s : StageRun}
    → Memᴰ s (claim_candidates locked stages)
    → locked s.id ≡ false
unfolding claim_candidates
candidate_unlocked locked stages {s} m =
    let unlocked =
      (mem-select (λ (stage : StageRun). not (locked stage.id))
        (order_by claims_before (select (λ (stage : StageRun). is_queued stage.status) stages))
        (mem-take 50 _ m)).1 in
    ground (arith, unlocked)

module _ (settings : Settings) (now worker_id lease_token : ℕ) (locked : ℕ → Bool) (db : Db) where
  -- A claim that gave out `s` and left `db'`.
  pub record Granted (db' : Db) (s : StageRun) : Type 0 where
    pub worker : Worker
    pub stage : StageRun
    pub known : find_worker worker_id db ≡ ok worker
    pub active : is_active_state worker.desired_state ≡ true
    pub row : Memᴰ stage db.stages
    pub queued : is_queued stage.status ≡ true
    pub unlocked : locked stage.id ≡ false
    pub capable : capabilities_satisfy worker.capabilities stage.required_capabilities ≡ true
    pub enabled :
        providers_enabled stage.required_capabilities (enabled_providers db.providers) ≡ true
    pub lease : s ≡ leased settings now worker_id lease_token stage
    pub stored : db'.stages ≡ save_stage s db.stages

  abbrev GrantedAfter : Db × Option StageRun → Type 0
  GrantedAfter (db', none) = Unit
  GrantedAfter (db', some s) = Granted db' s

  claim-GrantedAfter : Holds GrantedAfter (claim settings now worker_id lease_token locked db)
  unfolding claim grant
  claim-GrantedAfter = Holds-bind GrantedAfter (find_worker worker_id db) _ λ worker known.
      elim (Bool-cases (is_active_state worker.desired_state)) [
        | inl e ↦
            rw e
              (elim (Option-cases
                (find (may_run worker db.providers) (claim_candidates locked db.stages))) [
                  | inl n ↦ rw n tt
                  | inr (stage, n) ↦
                      let m =
                        find-mem (may_run worker db.providers) (claim_candidates locked db.stages)
                          n in
                      let (row, queued) = claim_candidates-mem locked db.stages m in
                      let (capable, enabled) = &&-true _ _ (
                        find_holds (may_run worker db.providers) (claim_candidates locked db.stages)
                          n) in
                      rw n (
                        Holds-bind GrantedAfter (find_run stage.pipeline_run_id db) _ λ run _.
                          record {
                            worker = worker;
                            stage = stage;
                            known = known;
                            active = e;
                            row = row;
                            queued = queued;
                            unlocked = candidate_unlocked locked db.stages m;
                            capable = capable;
                            enabled = enabled;
                            lease = refl;
                            stored = refl;
                          })
                ])
        | inr e ↦ rw e tt
      ]

  -- A claim that gives out a stage gives it to a known worker that is active. The stage was a
  -- queued row that no other transaction held; the worker has the capabilities that the stage
  -- requires, and the providers it requires are enabled. What is stored and returned is that row
  -- with one attempt more, running, under the worker's lease.
  pub claim-Granted :
      (db' : Db) (s : StageRun)
      → claim settings now worker_id lease_token locked db ≡ ok (db', some s)
      → Granted db' s
  claim-Granted db' s h = Holds-ok GrantedAfter _ claim-GrantedAfter h

-- In a table whose keys tell rows apart, a row is found by its key.
found_by_key :
    (stages : List StageRun) (stage : StageRun)
    → ((s t : StageRun) → Memᴰ s stages → Memᴰ t stages → s.id ≡ t.id → s ≡ t)
    → Memᴰ stage stages
    → find (λ (row : StageRun). row.id == stage.id) stages ≡ some stage
found_by_key stages stage unique m =
    elim (Option-cases (find (λ (row : StageRun). row.id == stage.id) stages)) [
      | inl n ↦
          let missed : (stage.id == stage.id) ≡ false =
            find-none (λ (row : StageRun). row.id == stage.id) stages n m in
          absurd (ground (arith, (==_iff stage.id stage.id).1 refl))
      | inr (t, n) ↦
          let same = unique t stage (find-mem (λ (row : StageRun). row.id == stage.id) stages n) m (
            (==_iff t.id stage.id).0
              (find_holds (λ (row : StageRun). row.id == stage.id) stages n)) in
          n ∙ ap (λ r. some r) same
    ]

Granted-found :
    (settings : Settings) (now worker_id lease_token : ℕ) (locked : ℕ → Bool) (db db' : Db)
    (s : StageRun)
    → Scheduled db
    → Granted settings now worker_id lease_token locked db db' s
    → locked_stage s.id db' ≡ ok s
unfolding locked_stage
Granted-found settings now worker_id lease_token locked db db' s v g =
    let key : s.id ≡ g.stage.id = ap (λ (r : StageRun). r.id) g.lease in
    let found =
      subst⁻¹
        (λ k.
          or_raise (find (λ (row : StageRun). row.id == k) db.stages) Exception.lease_lost
          ≡ ok g.stage)
        key
        (ap (λ o. or_raise o Exception.lease_lost)
          (found_by_key db.stages g.stage v.unique g.row)) in
    subst⁻¹
      (λ rows.
        or_raise (find (λ (row : StageRun). row.id == s.id) rows) Exception.lease_lost ≡ ok s)
      g.stored (saved_found s.id db.stages g.stage s found key)

module _ (settings : Settings) (store : ObjectStore) (ids : NewIds) where
  -- Once a stage of a scheduled table is claimed, a report on it under another worker or another
  -- lease token is refused by heartbeat, fail and complete: a worker that lost its lease cannot
  -- disturb the worker that holds it now.
  pub reclaimed-Refused :
      (now later worker_id lease_token : ℕ) (locked : ℕ → Bool) (c : Report) (db db' : Db)
      (s : StageRun)
      → Scheduled db
      → claim settings now worker_id lease_token locked db ≡ ok (db', some s)
      → c.stage_id ≡ s.id
      → ((worker_id == c.worker_id) ≡ false) ⊎ ((lease_token == c.lease_token) ≡ false)
      → Refused settings store ids later c db'
  reclaimed-Refused now later worker_id lease_token locked c db db' s v h i other =
      let g = claim-Granted settings now worker_id lease_token locked db db' s h in
      not_held-Refused settings store ids later c db' s
        (subst⁻¹ (λ k. locked_stage k db' ≡ ok s) i
          (Granted-found settings now worker_id lease_token locked db db' s v g))
        (subst⁻¹ (λ r. holds_lease r c.worker_id c.lease_token ≡ false) g.lease (ground arith))
