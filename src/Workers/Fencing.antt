-- ===== src/Workers/Fencing.antt =====
-- app/services/workers.py: the calls of a worker that does not hold the lease of its stage.
use media_engine.Prelude.{
  ℕ, String, Bool, true, false, ◌≡◌, ◌≢◌, ◌≤◌, some, refl, ◌∙◌, ap, ◌⊎◌, inl, inr, Option, none,
  List, ◌==◌, ==_iff, arith, Bool-cases, find, find_holds, subst⁻¹, find-update_where, is_some_of,
  Exception, ok, raised, or_raise, or_raise-eq-ok, Holds, Holds-bind, Holds-ok,
}
use media_engine.Models.{Status, is_running, is_completed, StageRun, Db}
use media_engine.Settings.{Settings}
use media_engine.Workers.Leases.{
  locked_stage, holds_lease, lease_over, validate_active_lease, save_stage, find_run, heartbeat,
}
use media_engine.Workers.Requests.{UsageCompletion, persist_usage_events}
use media_engine.Workers.Failure.{failed_stage, fail}
use media_engine.Workers.Contract.{ArtifactCompletion}
use media_engine.Workers.Publication.{ObjectStore, NewIds}
use media_engine.Workers.Completion.{complete}

-- What a worker sends with a call on a stage.
pub record Report : Type 0 where
  pub worker_id : ℕ
  pub stage_id : ℕ
  pub lease_token : ℕ
  pub progress : Option ℕ
  pub error_message : String
  pub artifacts : List ArtifactCompletion
  pub usage_events : List UsageCompletion

module _ (settings : Settings) (store : ObjectStore) (ids : NewIds) (now : ℕ) (c : Report)
    (db : Db) where
  -- The three calls that a worker makes on a stage are refused.
  abbrev pub Refused : Type 0
  Refused =
      (heartbeat settings now c.worker_id c.stage_id c.lease_token c.progress db
        ≡ raised Exception.lease_lost)
      × (fail now ids.event_ids c.worker_id c.stage_id c.lease_token c.error_message c.usage_events
            db
          ≡ raised Exception.lease_lost)
      × (complete settings store ids now c.worker_id c.stage_id c.lease_token c.artifacts
            c.usage_events db
          ≡ raised Exception.lease_lost)

  pub not_held-Refused :
      (stage : StageRun)
      → locked_stage c.stage_id db ≡ ok stage
      → holds_lease stage c.worker_id c.lease_token ≡ false
      → Refused
  unfolding heartbeat fail complete
  not_held-Refused stage e h = (rw (e, h) refl, rw (e, h) refl, completion)
    where
      completion :
          complete settings store ids now c.worker_id c.stage_id c.lease_token c.artifacts
            c.usage_events db
          ≡ raised Exception.lease_lost
      completion = elim (Bool-cases (is_completed stage.status)) [
        | inl done ↦ rw (e, done, h) refl
        | inr open_row ↦ rw (e, open_row, h) refl
      ]

  pub lapsed-Refused :
      (stage : StageRun)
      → locked_stage c.stage_id db ≡ ok stage
      → is_completed stage.status ≡ false
      → (is_running stage.status ≡ false) ⊎ (lease_over stage.lease_expires_at now ≡ true)
      → Refused
  unfolding heartbeat fail complete
  lapsed-Refused stage e o h =
      let lapsed = validate_lapsed stage h in
      (rw (e, lapsed) refl, rw (e, lapsed) refl, rw (e, o, lapsed) refl)
    where
      validate_lapsed :
          (s : StageRun)
          → (is_running s.status ≡ false) ⊎ (lease_over s.lease_expires_at now ≡ true)
          → validate_active_lease s c.worker_id c.lease_token now ≡ raised Exception.lease_lost
      validate_lapsed s h = ground arith

is_row : ℕ → StageRun → Bool
is_row stage_id row = row.id == stage_id

-- A stage that is found by its key is found changed, once it is saved.
pub saved_found :
    (stage_id : ℕ) (stages : List StageRun) (s s' : StageRun)
    → or_raise (find (λ (row : StageRun). row.id == stage_id) stages) Exception.lease_lost ≡ ok s
    → s'.id ≡ s.id
    → or_raise
        (find (λ (row : StageRun). row.id == stage_id) (save_stage s' stages))
        Exception.lease_lost
      ≡ ok s'
unfolding save_stage
saved_found stage_id stages s s' e i =
    let found =
      or_raise-eq-ok (find (λ (row : StageRun). row.id == stage_id) stages) Exception.lease_lost
        e in
    let key : s'.id ≡ stage_id =
      i
      ∙ (==_iff s.id stage_id).0
          (find_holds (λ (row : StageRun). row.id == stage_id) stages found) in
    rw
      (find-update_where (λ (row : StageRun). row.id == stage_id) (λ row. row.id == s'.id) s' stages
        (λ z. ap (λ (k : ℕ). z.id == k) key) ((==_iff s'.id stage_id).1 key) found)
      refl

failed_row :
    (now : ℕ) (event_ids : ℕ → ℕ) (c : Report) (db : Db)
    → Holds
        (λ r. (locked_stage c.stage_id r.0 ≡ ok r.1) × (r.1.lease_token ≡ none))
        (fail now event_ids c.worker_id c.stage_id c.lease_token c.error_message c.usage_events db)
unfolding fail
failed_row now event_ids c db = Holds-bind After (locked_stage c.stage_id db) _ λ stage e.
    Holds-bind After (validate_active_lease stage c.worker_id c.lease_token now) _ λ u _.
      Holds-bind After (persist_usage_events stage db.providers c.usage_events db.usage_events) _
        λ usage _. Holds-bind After (find_run stage.pipeline_run_id db) _ λ run _. (
          saved_found c.stage_id db.stages stage (failed_stage now c.error_message stage) e refl,
          refl,
        )
  where
    After : Db × StageRun → Type 0
    After (db', r) = (locked_stage c.stage_id db' ≡ ok r) × (r.lease_token ≡ none)

-- A report of another worker, or under another token, than the lease's.
abbrev pub IsForeign : Report → StageRun → Type 0
IsForeign c stage =
    (stage.lease_owner_id ≢ some c.worker_id) ⊎ (stage.lease_token ≢ some c.lease_token)

-- A stage that does not run within a time limit.
abbrev pub IsLapsed : ℕ → StageRun → Type 0
IsLapsed now stage =
    (stage.status ≢ Status.running)
    ⊎ (stage.lease_expires_at ≡ none)
    ⊎ ((limit : ℕ) × (stage.lease_expires_at ≡ some limit) × (limit ≤ now))

not_some-other : (o : Option ℕ) (n : ℕ) → o ≢ some n → is_some_of o n ≡ false
not_some-other none n h = refl
not_some-other (some m) n h = elim (Bool-cases (m == n)) [
  | inl e ↦ absurd (h (ap some ((==_iff m n).0 e)))
  | inr e ↦ e
]

foreign :
    (c : Report) (stage : StageRun)
    → IsForeign c stage
    → holds_lease stage c.worker_id c.lease_token ≡ false
foreign c stage (inl h) = ground (arith, not_some-other stage.lease_owner_id c.worker_id h)
foreign c stage (inr h) = ground (arith, not_some-other stage.lease_token c.lease_token h)

uncompleted :
    (stage : StageRun) → stage.status ≢ Status.completed → is_completed stage.status ≡ false
uncompleted stage h = ground arith

lapsed :
    (now : ℕ) (stage : StageRun)
    → IsLapsed now stage
    → (is_running stage.status ≡ false) ⊎ (lease_over stage.lease_expires_at now ≡ true)
lapsed now stage (inl h) = ground arith
lapsed now stage (inr (inl none_set)) = inr (rw none_set refl)
lapsed now stage (inr (inr (limit, e, over))) = inr (rw e (ground arith))

module _ (settings : Settings) (store : ObjectStore) (ids : NewIds) where
  -- On a stage that is there, heartbeat, fail and complete refuse a report of another worker than the
  -- lease's or under another token; and on one that has not completed, also a report while the stage
  -- is not running, has no time limit, or has reached it.
  pub stale-Refused :
      (now : ℕ) (c : Report) (db : Db) (stage : StageRun)
      → locked_stage c.stage_id db ≡ ok stage
      → IsForeign c stage ⊎ ((stage.status ≢ Status.completed) × IsLapsed now stage)
      → Refused settings store ids now c db
  stale-Refused now c db stage e (inl h) =
      not_held-Refused settings store ids now c db stage e (foreign c stage h)
  stale-Refused now c db stage e (inr (o, h)) =
      lapsed-Refused settings store ids now c db stage e (uncompleted stage o) (lapsed now stage h)

  no_token : (stage : StageRun) (w t : ℕ) → stage.lease_token ≡ none → holds_lease stage w t ≡ false
  no_token stage w t h = ground arith

  -- After `fail` commits on a stage, heartbeat, fail and complete refuse every report on that stage,
  -- by any worker, under any token and at any time, as long as the tables stay as it left them.
  pub failed-Refused :
      (now later : ℕ) (c c' : Report) (db db' : Db) (stage : StageRun)
      → fail now ids.event_ids c.worker_id c.stage_id c.lease_token c.error_message c.usage_events
          db
        ≡ ok (db', stage)
      → c'.stage_id ≡ c.stage_id
      → Refused settings store ids later c' db'
  failed-Refused now later c c' db db' stage h same =
      let (found, freed) = Holds-ok After _ (failed_row now ids.event_ids c db) h in
      not_held-Refused settings store ids later c' db' stage
        (subst⁻¹ (λ i. locked_stage i db' ≡ ok stage) same found)
        (no_token stage c'.worker_id c'.lease_token freed)
    where
      After : Db × StageRun → Type 0
      After (d, r) = (locked_stage c.stage_id d ≡ ok r) × (r.lease_token ≡ none)
