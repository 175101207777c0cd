-- ===== src/JobQueue/Worker.antt =====
-- app/jobs.py, JobManager._worker: the turns of the queue's worker. What the transcoder's call comes to
-- is an argument.
use media_engine.Prelude.{
  ℕ, zero, suc, String, Bool, false, Option, none, some, List, [], ◌∷◌, ◌++◌, ◌||◌, not, ◌=ₛ◌,
  if◌then◌else◌, select, or_else,
}
use media_engine.JobQueue.Records.{
  JobStatus, is_cancelled, JobRecord, CallbackPayload, WorkItem, JobManager,
}
use media_engine.JobQueue.Manager.{modify, object_of}

abbrev pub begun : ℕ → JobRecord → JobRecord
begun now r = record r {
  status = JobStatus.processing;
  updated_at = now;
  transcode_started_at = some now;
}

abbrev pub status_cancelled : Option JobRecord → Bool
status_cancelled none = false
status_cancelled (some r) = is_cancelled r.status

-- The worker's turn up to the transcoder's call: the item of a cancelled job is dropped.
unfoldable pub take_item : ℕ → WorkItem → List WorkItem → JobManager → JobManager
unfolding object_of modify
take_item now item rest manager =
    if status_cancelled (object_of item.0 manager.objects)
    then record manager { queue = rest }
    else record manager {
      queue = rest;
      current = some item;
      objects = modify item.0 (begun now) manager.objects;
    }

-- `queue.get()`, by a worker that holds no item.
unfoldable pub dequeue : ℕ → JobManager → JobManager
dequeue now manager = elim manager.queue [
  | [] ↦ manager
  | item ∷ rest ↦ take_item now item rest manager
]

-- What the transcoder writes while it runs, of what the queue reads: `_update_progress`.
abbrev pub progressed : ℕ → JobRecord → JobRecord
progressed now r = record r { updated_at = now }

-- How the transcoder's call ends: with the path of its output, cancelled, or with an error's text.
pub data Outcome : Type 0 where
  output : String → Outcome
  stopped : Outcome
  error : String → Outcome

abbrev pub is_stopping : JobRecord → Bool
is_stopping r = r.cancel_requested || is_cancelled r.status

abbrev pub ended : JobStatus → ℕ → JobRecord → JobRecord
ended status now r = record r {
  status = status;
  updated_at = now;
  transcode_finished_at = some (or_else r.transcode_finished_at now);
}

abbrev pub finished : ℕ → Outcome → JobRecord → JobRecord
finished now (Outcome.output path) r =
    if is_stopping r
    then record r {
      transcode_finished_at = some now;
      status = JobStatus.cancelled;
      updated_at = now;
    }
    else record r {
      transcode_finished_at = some now;
      output_path = some path;
      status = JobStatus.completed;
      updated_at = now;
    }
finished now Outcome.stopped r = ended JobStatus.cancelled now r
finished now (Outcome.error text) r = record (ended JobStatus.failed now r) { error = some text }

abbrev pub message_of : Outcome → JobRecord → String
message_of (Outcome.output path) r = if is_stopping r then "cancelled" else "completed"
message_of Outcome.stopped r = "cancelled"
message_of (Outcome.error text) r = text

-- `_fire_callback`, with the record as it has become.
abbrev pub callback_of : String → JobRecord → List (String × CallbackPayload)
callback_of message r = elim r.callback_url [
  | none ↦ []
  | some url ↦
      (
        url,
        record {
          job_id = r.job_id;
          status = r.status;
          output_path = r.output_path;
          message = message;
        },
      )
      ∷ []
]

-- The output of a job that was cancelled meanwhile is removed.
abbrev pub files_after : Outcome → JobRecord → List String → List String
files_after (Outcome.output path) r files =
    if is_stopping r then select (λ f. not (f =ₛ path)) files else files ++ path ∷ []
files_after _ r files = files

unfoldable pub finish_item : ℕ → Outcome → WorkItem → JobManager → JobManager
unfolding object_of modify select
finish_item now outcome item manager = elim (object_of item.0 manager.objects) [
  | none ↦ record manager { current = none }
  | some r ↦ record manager {
    current = none;
    objects = modify item.0 (finished now outcome) manager.objects;
    files = files_after outcome r manager.files;
    callbacks = manager.callbacks ++ callback_of (message_of outcome r) (finished now outcome r);
  }
]

-- The worker's turn after the transcoder's call.
unfoldable pub finish_job : ℕ → Outcome → JobManager → JobManager
finish_job now outcome manager = elim manager.current [
  | none ↦ manager
  | some item ↦ finish_item now outcome item manager
]

unfoldable pub progress_item : ℕ → WorkItem → JobManager → JobManager
unfolding modify
progress_item now item manager = record manager {
  objects = modify item.0 (progressed now) manager.objects;
}

unfoldable pub progress_job : ℕ → JobManager → JobManager
progress_job now manager = elim manager.current [
  | none ↦ manager
  | some item ↦ progress_item now item manager
]

-- `_worker` for a number of rounds, each with the times that it reads and how the transcoder's call
-- ends; with an empty queue it waits.
unfoldable pub worker_rounds : ℕ → (ℕ → ℕ) → (ℕ → Outcome) → JobManager → JobManager
worker_rounds zero now outcome manager = manager
worker_rounds (suc rounds) now outcome manager =
    worker_rounds rounds now outcome
      (finish_job (now rounds) (outcome rounds) (dequeue (now rounds) manager))
