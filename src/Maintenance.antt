-- ===== src/Maintenance.antt =====
-- app/maintenance.py: the recovery of expired leases.
use media_engine.Prelude.{
  ℕ, Bool, Option, none, some, List, [], ◌∷◌, ◌&&◌, not, ◌==◌, ◌*◌, ◌+◌, leb, ltb, if◌then◌else◌,
  find, select, take, order_by, update_where,
}
use media_engine.Models.{is_running, WorkerStatus, Worker, StageRun, PipelineRun, Db}
use media_engine.Settings.{Settings}
use media_engine.Workers.Leases.{save_stage, save_run}
use media_engine.Workers.Requests.{settle_jobs}
use media_engine.Workers.Failure.{will_retry, status_after}

-- `lease_expires_at.is_not(None), lease_expires_at <= now`
abbrev pub expired_by : Option ℕ → ℕ → Bool
expired_by none now = Bool.false
expired_by (some expires_at) now = leb expires_at now

abbrev pub lease_expired : ℕ → StageRun → Bool
lease_expired now stage = is_running stage.status && expired_by stage.lease_expires_at now

abbrev pub earlier : Option ℕ → Option ℕ → Bool
earlier (some a) (some b) = ltb a b
earlier _ _ = Bool.false

-- The rows that the query gives; `locked` are the ones that other transactions hold.
unfoldable pub expired_stages : Settings → ℕ → (ℕ → Bool) → List StageRun → List StageRun
unfolding select order_by
expired_stages settings now locked stages = take settings.retention_batch_size (
    select (λ stage. not (locked stage.id))
      (order_by (λ s t. earlier s.lease_expires_at t.lease_expires_at)
        (select (lease_expired now) stages)))

abbrev pub recovered_stage : ℕ → StageRun → StageRun
recovered_stage now stage = record stage {
  status = status_after (will_retry stage);
  error_message = some "Worker lease expired";
  lease_owner_id = none;
  lease_token = none;
  lease_expires_at = none;
  progress = none;
  completed_at = if will_retry stage then stage.completed_at else some now;
}

-- One round of the loop over the expired stages.
unfoldable pub recover_stage : ℕ → (ℕ → ℕ) → StageRun → Db → Db
unfolding find save_stage save_run settle_jobs
recover_stage now event_ids stage db =
    let retry = will_retry stage in
    let db' = record db { stages = save_stage (recovered_stage now stage) db.stages } in
    elim (find (λ (run : PipelineRun). run.id == stage.pipeline_run_id) db.runs) [
      | none ↦ db'
      | some run ↦
          let run' = record run { status = status_after retry } in
          settle_jobs now event_ids (not retry) (status_after retry) run'
            (record db' { runs = save_run run' db.runs })
    ]

unfoldable pub recover_stages : ℕ → (ℕ → ℕ) → List StageRun → Db → Db
recover_stages now event_ids [] db = db
recover_stages now event_ids (stage ∷ stages) db =
    recover_stages now event_ids stages (recover_stage now event_ids stage db)

abbrev is_stale : Settings → ℕ → Worker → Bool
is_stale settings now worker = elim worker.last_seen_at [
  | none ↦ Bool.false
  | some seen ↦ ltb (seen + settings.worker_lease_seconds * 2) now
]

unfoldable pub recover_expired_leases_once : Settings → ℕ → (ℕ → Bool) → (ℕ → ℕ) → Db → Db
unfolding expired_stages recover_stages recover_stage update_where
recover_expired_leases_once settings now locked event_ids db =
    let recovered =
      recover_stages now event_ids (expired_stages settings now locked db.stages) db in
    record recovered {
      workers =
          update_where (is_stale settings now)
            (λ (worker : Worker). record worker { status = WorkerStatus.offline }) db.workers;
    }
