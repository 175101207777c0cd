-- ===== src/Workers/Outcomes.antt =====
-- The status that app/services/workers.py derives of a run, and the ones that it writes.
use media_engine.Prelude.{
  or_raise-eq-ok, find_holds, find-mem, Exception, ℕ, String, Bool, true, false, ◌≡◌, refl, ap, ◌↔◌,
  inl, inr, List, [], ◌∷◌, Memᴰ, ◌==◌, ==_iff, ◌&&◌, arith, Bool-cases, if◌then◌else◌, any, all,
  all_of_mem, all_intro, any_of_mem, find, mem-select, select, subst, ok, Holds, Holds-bind,
  Holds-ok, mem-update_where_of_mem,
}
use media_engine.Models.{Status, is_failed, is_completed, is_running, StageRun, PipelineRun, Db}
use media_engine.Workers.Leases.{
  locked_stage, validate_active_lease, find_run, save_stage, save_run,
}
use media_engine.Workers.Requests.{UsageCompletion, persist_usage_events, settle_jobs}
use media_engine.Workers.Failure.{failed_stage, will_retry, status_after, fail}
use media_engine.Workers.StageGraph.{in_run, derived_status, derive_run_status}

pub select-mem {ℓ} :
    {A : Type ℓ} (p : A → Bool) (xs : List A) {a : A}
    → Memᴰ a xs
    → p a ≡ true
    → Memᴰ a (select p xs)
unfolding select
select-mem p [] m h = m
select-mem p (x ∷ xs) {a} (Memᴰ.head e) h = rw (subst (λ y. p y ≡ true) e h) (Memᴰ.head e)
select-mem p (x ∷ xs) {a} (Memᴰ.tail m) h = elim (Bool-cases (p x)) [
  | inl k ↦ rw k (Memᴰ.tail (select-mem p xs m h))
  | inr k ↦ rw k (select-mem p xs m h)
]

all_done :
    (a b c d : Bool)
    → (if a && b
        then Status.completed
        else if c
        then Status.failed
        else if d
        then Status.running
        else Status.queued)
      ≡ Status.completed
    → b ≡ true
all_done a b c d h = ground arith

derived_status-to :
    (rows : List StageRun)
    → derived_status rows ≡ Status.completed
    → ((s : StageRun) × Memᴰ s rows) × ((s : StageRun) → Memᴰ s rows → is_completed s.status ≡ true)
unfolding derived_status
derived_status-to [] h = unfold all any in cc
derived_status-to (r ∷ rows) h = (
  (r, Memᴰ.head refl),
  λ s m.
      all_of_mem (λ (row : StageRun). is_completed row.status) (r ∷ rows) m
        (all_done true (all (λ (row : StageRun). is_completed row.status) (r ∷ rows))
          (any (λ (row : StageRun). is_failed row.status) (r ∷ rows))
          (any (λ (row : StageRun). is_running row.status) (r ∷ rows)) h),
)

derived_status-from :
    (rows : List StageRun)
    → ((s : StageRun) × Memᴰ s rows)
    → ((s : StageRun) → Memᴰ s rows → is_completed s.status ≡ true)
    → derived_status rows ≡ Status.completed
unfolding derived_status
derived_status-from [] (s, m) h = elim m [ ]
derived_status-from (r ∷ rows) n h =
    rw (all_intro (λ (row : StageRun). is_completed row.status) (r ∷ rows) h) refl

-- The derived status by what it says of the stages of a run.
module _ (stages : List StageRun) (run_id : ℕ) where
  abbrev rows : List StageRun
  rows = select (in_run run_id) stages

  abbrev pub OfRun : StageRun → Type 0
  OfRun s = Memᴰ s stages × (s.pipeline_run_id ≡ run_id)

  of_run : (s : StageRun) → Memᴰ s rows → OfRun s
  of_run s m =
      let (n, h) = mem-select (in_run run_id) stages m in (n, (==_iff s.pipeline_run_id run_id).0 h)

  to_rows : (s : StageRun) → OfRun s → Memᴰ s rows
  to_rows s (m, h) = select-mem (in_run run_id) stages m ((==_iff s.pipeline_run_id run_id).1 h)

  -- A run has failed if one of its stages has.
  pub derive_run_status_of_failed :
      (s : StageRun)
      → OfRun s
      → is_failed s.status ≡ true
      → derive_run_status stages run_id ≡ Status.failed
  unfolding derive_run_status derived_status
  derive_run_status_of_failed s o f =
      let not_all = not_completed in
      let some_failed =
        any_of_mem (λ (row : StageRun). is_failed row.status) rows (to_rows s o) f in
      ground (arith, not_all, some_failed)
    where
      not_completed : all (λ (row : StageRun). is_completed row.status) rows ≡ false
      not_completed = elim (Bool-cases (all (λ (row : StageRun). is_completed row.status) rows)) [
        | inl k ↦
            let c = all_of_mem (λ (row : StageRun). is_completed row.status) rows (to_rows s o) k in
            absurd (ground (arith, c, f))
        | inr k ↦ k
      ]

  -- The derived status is "completed" exactly if the run has a stage and every stage of it has
  -- completed.
  pub derive_run_status-completed :
      (derive_run_status stages run_id ≡ Status.completed)
      ↔ (((s : StageRun) × OfRun s) × ((s : StageRun) → OfRun s → is_completed s.status ≡ true))
  unfolding derive_run_status
  derive_run_status-completed = (
    λ h.
        let ((s, m), done) = derived_status-to rows h in
        ((s, of_run s m), λ t o. done t (to_rows t o)),
    λ ((s, o), done). derived_status-from rows (s, to_rows s o) (λ t m. done t (of_run t m)),
  )

-- What a failure with an attempt left does to the run, beside the stages as it leaves them.
abbrev pub Requeued : ℕ → Db × StageRun → Type 0
Requeued run_id (db', r) =
    ((run : PipelineRun) × Memᴰ run db'.runs × (run.id ≡ run_id) × (run.status ≡ Status.queued))
    × (derive_run_status db'.stages run_id ≡ Status.failed)

retry_Requeued :
    (now : ℕ) (event_ids : ℕ → ℕ) (worker_id stage_id lease_token : ℕ) (error_message : String)
    (usage_events : List UsageCompletion) (db : Db) (stage other : StageRun)
    → locked_stage stage_id db ≡ ok stage
    → will_retry stage ≡ true
    → Memᴰ other db.stages
    → (other.id == stage.id) ≡ false
    → other.pipeline_run_id ≡ stage.pipeline_run_id
    → is_failed other.status ≡ true
    → Holds
        (Requeued stage.pipeline_run_id)
        (fail now event_ids worker_id stage_id lease_token error_message usage_events db)
unfolding fail settle_jobs save_stage save_run
retry_Requeued now event_ids worker_id stage_id lease_token error_message usage_events db stage
      other found retry m apart same failed =
    rw found (
      Holds-bind P (validate_active_lease stage worker_id lease_token now) _ λ u _.
        Holds-bind P (persist_usage_events stage db.providers usage_events db.usage_events) _
          λ usage _. Holds-bind P (find_run stage.pipeline_run_id db) _ λ run e.
            let (saved, key) = saved_run run e in
            (
              (record run { status = status_after (will_retry stage) }, saved, key, status),
              derive_run_status_of_failed
                  (save_stage (failed_stage now error_message stage) db.stages)
                  stage.pipeline_run_id other (kept, same) failed,
            ))
  where
    status : status_after (will_retry stage) ≡ Status.queued
    status = ap status_after retry

    kept : Memᴰ other (save_stage (failed_stage now error_message stage) db.stages)
    kept =
        subst
          (λ b.
            Memᴰ (if b then failed_stage now error_message stage else other)
              (save_stage (failed_stage now error_message stage) db.stages))
          apart
          (mem-update_where_of_mem (λ (row : StageRun). row.id == stage.id)
            (λ _. failed_stage now error_message stage) db.stages m)

    saved_run :
        (run : PipelineRun)
        → find_run stage.pipeline_run_id db ≡ ok run
        → let run' = record run { status = status_after (will_retry stage) } in
          Memᴰ run' (save_run run' db.runs) × (run.id ≡ stage.pipeline_run_id)
    saved_run run e =
        let run' = record run { status = status_after (will_retry stage) } in
        let n =
          or_raise-eq-ok (find (λ (row : PipelineRun). row.id == stage.pipeline_run_id) db.runs)
            Exception.runtime_error e in
        (
          subst (λ b. Memᴰ (if b then run' else run) (save_run run' db.runs))
              ((==_iff run.id run.id).1 refl)
              (mem-update_where_of_mem (λ (row : PipelineRun). row.id == run.id) (λ _. run') db.runs
                (find-mem (λ (row : PipelineRun). row.id == stage.pipeline_run_id) db.runs n)),
          (==_iff run.id stage.pipeline_run_id).0
              (find_holds (λ (row : PipelineRun). row.id == stage.pipeline_run_id) db.runs n),
        )

    P : Db × StageRun → Type 0
    P = Requeued stage.pipeline_run_id

-- A failure with an attempt left queues the run again even where another stage of the run has
-- failed for good: once `fail` commits, the run's row is "queued", while the status that
-- _derive_run_status gives of the same stages is "failed".
pub retry_hides_failure :
    (now : ℕ) (event_ids : ℕ → ℕ) (worker_id stage_id lease_token : ℕ) (error_message : String)
    (usage_events : List UsageCompletion) (db db' : Db) (stage other r : StageRun)
    → locked_stage stage_id db ≡ ok stage
    → will_retry stage ≡ true
    → Memᴰ other db.stages
    → (other.id == stage.id) ≡ false
    → other.pipeline_run_id ≡ stage.pipeline_run_id
    → is_failed other.status ≡ true
    → fail now event_ids worker_id stage_id lease_token error_message usage_events db ≡ ok (db', r)
    → ((run : PipelineRun) × Memᴰ run db'.runs
        × (run.id ≡ stage.pipeline_run_id)
        × (run.status ≡ Status.queued))
      × (derive_run_status db'.stages stage.pipeline_run_id ≡ Status.failed)
retry_hides_failure now event_ids worker_id stage_id lease_token error_message usage_events db db'
      stage other r found retry m apart same failed h =
    Holds-ok (Requeued stage.pipeline_run_id) _
      (retry_Requeued now event_ids worker_id stage_id lease_token error_message usage_events db
        stage other found retry m apart same failed)
      h
