-- ===== src/JobQueue/Manager.antt =====
-- app/jobs.py, JobManager: submission, cancelling, purging and the turns of its worker. The time that
-- a step reads, the drawn UUID and what the transcoder's call comes to are arguments. A step runs
-- from one `await` that waits to the next.
use media_engine.Prelude.{
  ℕ, String, Bool, true, false, Option, none, some, List, [], ◌∷◌, ◌++◌, ◌&&◌, ◌||◌, not, ◌==◌,
  ◌=ₛ◌, ◌+◌, ◌*◌, ltb, leb, length, if◌then◌else◌, any, find, select, update_where, Exception,
  Result, ok, raised, ◌>>=◌, ◌>>◌, raise_if,
}
use media_engine.JobQueue.Records.{
  JobStatus, is_completed, is_failed, is_cancelled, TranscodeRequest, JobRecord, JobManager,
  QueueSettings,
}

-- `asyncio.Queue.full`; a queue of size 0 is without bound.
abbrev pub is_full : QueueSettings → JobManager → Bool
is_full settings manager =
    ltb 0 settings.max_queue_size && leb settings.max_queue_size (length manager.queue)

-- The loop of `_persist_upload` over the sizes of the chunks that are read, with the bytes so far.
unfoldable pub persist_chunks : Option ℕ → ℕ → List ℕ → Result ℕ
persist_chunks limit total [] = ok total
persist_chunks limit total (chunk ∷ chunks) =
    let rest = persist_chunks limit (total + chunk) chunks in
    if chunk == 0 then ok total else elim limit [
      | none ↦ rest
      | some bound ↦ if ltb bound (total + chunk) then raised Exception.upload_too_large else rest
    ]

-- An upload: its name, the path that it is written to, the sizes of its chunks, and when its
-- writing began and ended.
pub record Upload : Type 0 where
  pub filename : String
  pub dest_path : String
  pub chunks : List ℕ
  pub started_at : ℕ
  pub finished_at : ℕ

abbrev pub new_record : ℕ → ℕ → Upload → TranscodeRequest → JobRecord
new_record now job_id upload request = record {
  job_id = job_id;
  status = JobStatus.queued;
  created_at = now;
  updated_at = now;
  source_path = upload.dest_path;
  source_filename = upload.filename;
  output_path = none;
  quality = request.quality;
  codec = request.codec;
  callback_url = request.callback_url;
  error = none;
  download_started_at = some upload.started_at;
  download_finished_at = some upload.finished_at;
  transcode_started_at = none;
  transcode_finished_at = none;
  cancel_requested = false;
}

-- `submit_job` after the upload: a full queue drops the record and the file again.
unfoldable pub enqueue_job :
    QueueSettings → ℕ → ℕ → Upload → TranscodeRequest → JobManager → Result JobManager
enqueue_job settings now job_id upload request manager =
    raise_if (is_full settings manager) Exception.queue_full
    >> ok (record manager {
      objects = manager.objects ++ new_record now job_id upload request ∷ [];
      records = manager.records ++ job_id ∷ [];
      queue = manager.queue ++ (job_id, request) ∷ [];
      files = manager.files ++ upload.dest_path ∷ [];
    })

-- `submit_job`, where no other step runs during the upload.
unfoldable pub submit_job :
    QueueSettings → ℕ → ℕ → Upload → TranscodeRequest → JobManager → Result JobManager
unfolding persist_chunks enqueue_job
submit_job settings now job_id upload request manager =
    raise_if (is_full settings manager) Exception.queue_full
    >> (persist_chunks settings.max_upload_bytes 0 upload.chunks >>= λ size.
        enqueue_job settings now job_id upload request manager)

-- An attribute write on the record object of a key.
unfoldable pub modify : ℕ → (JobRecord → JobRecord) → List JobRecord → List JobRecord
unfolding update_where
modify job_id f = update_where (λ r. r.job_id == job_id) f

unfoldable pub object_of : ℕ → List JobRecord → Option JobRecord
unfolding find
object_of job_id = find (λ r. r.job_id == job_id)

-- `self.records.get(job_id)`
unfoldable pub listed_record : ℕ → JobManager → Option JobRecord
unfolding any object_of
listed_record job_id manager =
    if any (λ key. key == job_id) manager.records then object_of job_id manager.objects else none

abbrev pub is_terminal : JobStatus → Bool
is_terminal status = is_completed status || is_failed status || is_cancelled status

abbrev pub with_cancel : ℕ → JobRecord → JobRecord
with_cancel now r = record r {
  cancel_requested = true;
  status = JobStatus.cancelled;
  updated_at = now;
}

unfoldable pub cancel_job : ℕ → ℕ → JobManager → JobManager × Bool
unfolding listed_record modify
cancel_job now job_id manager = elim (listed_record job_id manager) [
  | none ↦ (manager, false)
  | some r ↦
      if is_terminal r.status
      then (manager, false)
      else (record manager { objects = modify job_id (with_cancel now) manager.objects }, true)
]

-- `record.updated_at < cutoff`
abbrev pub is_overdue : QueueSettings → ℕ → JobRecord → Bool
is_overdue settings now r = ltb (r.updated_at + settings.job_retention_minutes * 60) now

abbrev pub to_delete : QueueSettings → ℕ → JobManager → ℕ → Bool
to_delete settings now manager key = elim (object_of key manager.objects) [
  | none ↦ false
  | some r ↦ is_overdue settings now r
]

abbrev pub has_path : String → Option String → Bool
has_path path none = false
has_path path (some output_path) = output_path =ₛ path

-- The files of the records that are dropped.
abbrev pub is_unlinked : QueueSettings → ℕ → JobManager → String → Bool
is_unlinked settings now manager path =
    any
      (λ key. elim (object_of key manager.objects) [
        | none ↦ false
        | some r ↦
            is_overdue settings now r && (r.source_path =ₛ path || has_path path r.output_path)
      ])
      manager.records

unfoldable pub purge_expired_jobs : QueueSettings → ℕ → JobManager → JobManager
unfolding select any object_of
purge_expired_jobs settings now manager = record manager {
  records = select (λ key. not (to_delete settings now manager key)) manager.records;
  files = select (λ path. not (is_unlinked settings now manager path)) manager.files;
}
