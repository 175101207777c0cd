-- ===== src/Lib.antt =====
-- Media Engine: a backend that takes media files and runs them through pipelines of stages, which
-- workers claim, carry out and report on; clients are told of the end of their jobs by webhooks.
--
-- The parts and the files that model them:
--   * app/domain/pipelines.py (the catalogue of pipelines, get_pipeline, the capabilities of a
--     stage) is Domain/Pipelines and Domain/Catalog; Domain/Graphs and Domain/Positions reason about
--     its stage graphs.
--     app/domain/content.py, content_addressed_key, is Domain/Content.
--   * app/persistence/models.py is Models: one record per table, and the record Db of all tables as
--     lists of rows. app/config.py is Settings.
--   * app/services/workers.py is Workers: Capabilities (capabilities_satisfy), Leases (register,
--     claim, heartbeat and the lease checks), Requests (usage events, the jobs of a run), Failure
--     (fail), Contract (_validate_artifact_contract), Publication (the recording of artifacts),
--     StageGraph (_activate_dependents, _derive_run_status) and Completion (complete). The other
--     files there prove: Fencing, Replays, Claims, Outcomes.
--   * app/services/jobs.py is Jobs: Stages (_ensure_stages), Cache (_is_cache_hit), Requests and
--     Submission (submit, with app/domain/content.py, pipeline_run_key). Outputs, Serving, Sources and
--     Replays prove.
--   * app/maintenance.py: recover_expired_leases_once is Maintenance, and expire_blobs_once is
--     Retention, where Sweep proves.
--   * app/services/webhooks.py is Webhooks: Outbox (enqueue_job_webhook_event), and
--     WebhookDispatcher in Dispatch (_claim, _finalize) and Reply (_deliver). Uniqueness,
--     Attempts, Claims, Settling, Turns and Delivery prove. Endpoints is WebhookEndpointService and
--     validate_webhook_destination, where the URL parser and the resolver are arguments; Defaults,
--     Fitting, Changes and Managed prove.
--   * app/services/assets.py is Assets: Ingest (ingest_upload); Submitting proves, with the
--     submission of app/services/jobs.py.
--   * app/services/worker_access.py, app/services/access.py, app/security.py and app/api/auth.py are
--     Access: Tokens (generate_token and the parts of a token), WorkerAccess (WorkerAccessService),
--     Clients (ClientAccessService and the guards of client routes) and Sessions
--     (AdminSessionManager, require_admin). Lifecycle, Advancing, Calls, Commits, Admission, RoundTrips,
--     Creating, Scopes and Administrators prove.
--   * app/jobs.py and app/models.py are JobQueue: Records, and JobManager in Manager, with its
--     worker in Worker; Soundness, Taking, Turns, Ends, Draining and Uploads prove.
--   * app/transcode is Transcode: Profiles, Engine (the probed media, codecs, sizes and commands) and
--     Process (_process_sync); Outputs, Delivery and Fallback prove.
--   * Scheduling has the invariants of the stage table: Inserting, Linking, Creation, Joining and
--     Submitting on the stages that a submission creates or finds, and the others under any sequence of calls of the worker
--     service and of the maintenance.
--   * Samples is a small database, and Examples applies the theorems to it.
--
-- How code is modelled. A service call is one transaction: a function from the database to a Result,
-- which is the committed database with the call's answer, or the exception, after which the tables
-- are as they were. A step relation (Scheduling.Progress.Activity, Webhooks.Turns.Turn) has one
-- constructor for each call, so that a sequence of steps is an interleaving of transactions; rows
-- that other transactions hold, which SKIP LOCKED passes over, are an arbitrary test `locked`. The
-- time that a call reads, the UUIDs and tokens that it draws, the bucket (from keys to what `stat`
-- reports), the credential cipher, SHA-256, HMAC, the JSON of a session, str.lower, the digest of a
-- run key, what the HTTP client's call comes to, what ffprobe measures and ffmpeg's run raises, and
-- the engine's rounding of floating-point numbers are arguments. UUIDs and times (in seconds) are
-- natural numbers; a stage's progress and the
-- webhook timeout, a float, are in thousandths. The other numbers of the source are Python
-- integers, without bound. A loop goes over a list, or for the number of rounds that the source gives
-- it; only the endless loop of the job queue's worker, worker_rounds, goes for a number of rounds that
-- is its argument, and JobQueue.Draining shows that as many as items wait are enough.
--
-- Not modelled: the rest of the HTTP API and request parsing, the worker process, the processors, the
-- configuration of providers, the vendors' services, subprocesses and files, SQL itself and its
-- deadlocks, columns that no modelled code reads (labels, JSON metadata, updated_at of most tables)
-- and message texts.
pub mod Prelude
pub mod Domain
pub mod Models
pub mod Settings
pub mod Access
pub mod Webhooks
pub mod Workers
pub mod Jobs
pub mod Assets
pub mod JobQueue
pub mod Transcode
pub mod Maintenance
pub mod Retention
pub mod Scheduling
pub mod Samples
mod Examples
