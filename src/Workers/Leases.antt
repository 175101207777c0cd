-- ===== src/Workers/Leases.antt =====
-- app/services/workers.py: register, claim, heartbeat and fail, with the checks of a lease. A
-- call is one transaction: it returns the database that it commits, or raises and leaves all as
-- it was. `now` is the time that the call reads.
use media_engine.Prelude.{
  ℕ, String, Bool, true, Option, none, some, List, map, ◌&&◌, ◌||◌, not, ◌==◌, ◌+◌, ltb, leb, find,
  select, if◌then◌else◌, take, order_by, update_where, is_some_of, or_else, Exception, Result, ok,
  ◌>>=◌, ◌>>◌, raise_if, or_raise,
}
use media_engine.Models.{
  Status, is_queued, is_running, CapabilityMap, WorkerStatus, DesiredState, Worker, StageRun,
  PipelineRun, JobRequest, ProviderConfig, Db,
}
use media_engine.Settings.{Settings}
use media_engine.Workers.Capabilities.{capabilities_satisfy, providers_enabled}

-- An attribute write on a loaded row, by its primary key.
unfoldable pub save_stage : StageRun → List StageRun → List StageRun
unfolding update_where
save_stage stage = update_where (λ row. row.id == stage.id) (λ _. stage)

unfoldable pub save_run : PipelineRun → List PipelineRun → List PipelineRun
unfolding update_where
save_run run = update_where (λ row. row.id == run.id) (λ _. run)

unfoldable pub save_worker : Worker → List Worker → List Worker
unfolding update_where
save_worker worker = update_where (λ row. row.id == worker.id) (λ _. worker)

unfoldable pub find_worker : ℕ → Db → Result Worker
find_worker worker_id db =
    or_raise (find (λ (row : Worker). row.id == worker_id) db.workers) Exception.worker_not_found

-- `worker.status = "online"; worker.last_seen_at = now`
abbrev pub seen_online : ℕ → Worker → Worker
seen_online now worker = record worker { status = WorkerStatus.online; last_seen_at = some now }

abbrev pub touch_worker : ℕ → ℕ → List Worker → List Worker
touch_worker now worker_id = update_where (λ row. row.id == worker_id) (seen_online now)

unfoldable pub register : ℕ → ℕ → CapabilityMap → Db → Result (Db × Worker)
unfolding find_worker save_worker
register now worker_id capabilities db = find_worker worker_id db >>= λ worker.
    let registered = record worker {
      capabilities = capabilities;
      status = WorkerStatus.online;
      registered_at = some (or_else worker.registered_at now);
      last_seen_at = some now;
    } in
    ok (record db { workers = save_worker registered db.workers }, registered)

-- `_locked_stage`
unfoldable pub locked_stage : ℕ → Db → Result StageRun
locked_stage stage_id db =
    or_raise (find (λ (row : StageRun). row.id == stage_id) db.stages) Exception.lease_lost

abbrev pub holds_lease : StageRun → ℕ → ℕ → Bool
holds_lease stage worker_id lease_token =
    is_some_of stage.lease_owner_id worker_id && is_some_of stage.lease_token lease_token

-- `_validate_lease_identity`
abbrev pub validate_lease_identity : StageRun → ℕ → ℕ → Result (Unit {0})
validate_lease_identity stage worker_id lease_token =
    raise_if (not (holds_lease stage worker_id lease_token)) Exception.lease_lost

-- `lease_expires_at is None or lease_expires_at <= now`
abbrev pub lease_over : Option ℕ → ℕ → Bool
lease_over none now = true
lease_over (some expires_at) now = leb expires_at now

-- `_validate_active_lease`
abbrev pub validate_active_lease : StageRun → ℕ → ℕ → ℕ → Result (Unit {0})
validate_active_lease stage worker_id lease_token now =
    validate_lease_identity stage worker_id lease_token
    >> raise_if (not (is_running stage.status) || lease_over stage.lease_expires_at now)
        Exception.lease_lost

-- `ORDER BY priority DESC, created_at`
abbrev pub claims_before : StageRun → StageRun → Bool
claims_before s t =
    ltb t.priority s.priority || (t.priority == s.priority && ltb s.created_at t.created_at)

-- The rows that the query gives; `locked` are the ones that other transactions hold.
unfoldable pub claim_candidates : (ℕ → Bool) → List StageRun → List StageRun
unfolding order_by select
claim_candidates locked stages = take 50 (
    select (λ stage. not (locked stage.id))
      (order_by claims_before (select (λ stage. is_queued stage.status) stages)))

unfoldable pub enabled_providers : List ProviderConfig → List String
unfolding select
enabled_providers providers = map (λ row. row.provider) (select (λ row. row.enabled) providers)

abbrev pub may_run : Worker → List ProviderConfig → StageRun → Bool
may_run worker providers candidate =
    capabilities_satisfy worker.capabilities candidate.required_capabilities
    && providers_enabled candidate.required_capabilities (enabled_providers providers)

abbrev pub leased : Settings → ℕ → ℕ → ℕ → StageRun → StageRun
leased settings now worker_id lease_token stage = record stage {
  status = Status.running;
  attempt = stage.attempt + 1;
  lease_owner_id = some worker_id;
  lease_token = some lease_token;
  lease_expires_at = some (now + settings.worker_lease_seconds);
  heartbeat_at = some now;
  progress = some 0;
  error_message = none;
  started_at = some (or_else stage.started_at now);
}

abbrev pub find_run : ℕ → Db → Result PipelineRun
find_run run_id db =
    or_raise (find (λ (row : PipelineRun). row.id == run_id) db.runs) Exception.runtime_error

abbrev pub attached : ℕ → (Status → Bool) → JobRequest → Bool
attached run_id has_status job = job.pipeline_run_id == run_id && has_status job.status

-- The claim of a chosen stage.
unfoldable pub grant : Settings → ℕ → ℕ → ℕ → StageRun → Db → Result (Db × Option StageRun)
unfolding save_stage save_run update_where
grant settings now worker_id lease_token stage db = find_run stage.pipeline_run_id db >>= λ run.
    let claimed = leased settings now worker_id lease_token stage in
    ok (
      record db {
        stages = save_stage claimed db.stages;
        runs = save_run (record run { status = Status.running }) db.runs;
        jobs =
            update_where (attached run.id is_queued)
              (λ job. record job { status = Status.running; updated_at = now }) db.jobs;
      },
      some claimed,
    )

abbrev pub is_active_state : DesiredState → Bool
is_active_state DesiredState.active = true
is_active_state _ = Bool.false

-- `lease_token` is the UUID that the call draws.
unfoldable pub claim : Settings → ℕ → ℕ → ℕ → (ℕ → Bool) → Db → Result (Db × Option StageRun)
unfolding find_worker save_worker claim_candidates grant
claim settings now worker_id lease_token locked db = find_worker worker_id db >>= λ worker.
    if not (is_active_state worker.desired_state)
    then ok (
      record db { workers = save_worker (record worker { last_seen_at = some now }) db.workers },
      none,
    )
    else let db' = record db { workers = save_worker (seen_online now worker) db.workers } in
      elim (find (may_run worker db.providers) (claim_candidates locked db.stages)) [
        | none ↦ ok (db', none)
        | some stage ↦ grant settings now worker_id lease_token stage db'
      ]

unfoldable pub heartbeat : Settings → ℕ → ℕ → ℕ → ℕ → Option ℕ → Db → Result (Db × StageRun)
unfolding locked_stage save_stage update_where
heartbeat settings now worker_id stage_id lease_token progress db =
    locked_stage stage_id db >>= λ stage.
    validate_active_lease stage worker_id lease_token now
    >> let beaten = record stage {
      heartbeat_at = some now;
      lease_expires_at = some (now + settings.worker_lease_seconds);
      progress = elim progress [ none ↦ stage.progress | some p ↦ some p ];
    } in
      ok (
        record db {
          stages = save_stage beaten db.stages;
          workers = touch_worker now worker_id db.workers;
        },
        beaten,
      )
