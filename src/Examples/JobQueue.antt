-- ===== src/Examples/JobQueue.antt =====
-- The theorems on the queue of transcodes, at a queue with one job.
use media_engine.Prelude.{
  true, none, some, [], ◌∷◌, ◌≡◌, refl, sym, ◌∙◌, subst⁻¹, Memᴰ, mem-one, arith, ◌||◌, length,
  Exception, raised,
}
use media_engine.JobQueue.Records.{
  JobStatus, QualityTarget, CodecPreference, is_cancelled, is_failed, TranscodeRequest, JobRecord,
  JobManager, QueueSettings,
}
use media_engine.JobQueue.Manager.{
  Upload, new_record, cancel_job, is_terminal, purge_expired_jobs, listed_record, persist_chunks,
}
use media_engine.JobQueue.Worker.{Outcome, dequeue, finish_job, worker_rounds, take_item}
use media_engine.JobQueue.Soundness.{has_key, no_repeats, Fits, IsSound}
use media_engine.JobQueue.Turns.{Turn, Turns, Turns-IsSound}
use media_engine.JobQueue.Ends.{cancelled_never_completes}
use media_engine.JobQueue.Draining.{worker_rounds-IsTerminal}
use media_engine.JobQueue.Uploads.{uploaded_bytes, persist_chunks-exceeds, purge_drops_waiting}

abbrev limits : QueueSettings
limits = record { max_queue_size = 2; max_upload_bytes = some 10; job_retention_minutes = 120 }

abbrev request : TranscodeRequest
request = record {
  quality = QualityTarget.auto;
  codec = CodecPreference.auto;
  callback_url = some "https://example.com/done";
}

abbrev upload : Upload
upload = record {
  filename = "clip.mp4";
  dest_path = "in/1_clip.mp4";
  chunks = 4 ∷ 0 ∷ [];
  started_at = 5;
  finished_at = 6;
}

abbrev job : JobRecord
job = new_record 5 1 upload request

abbrev manager : JobManager
manager = record {
  objects = job ∷ [];
  records = 1 ∷ [];
  queue = (1, request) ∷ [];
  current = none;
  files = "in/1_clip.mp4" ∷ [];
  callbacks = [];
}

job-Fits : Fits manager.queue none job
unfolding has_key
job-Fits = record { stopped = λ h. cc; single = λ h. cc; waiting = λ _. refl; pending = λ _. refl }

manager-IsSound : IsSound limits manager
unfolding no_repeats
manager-IsSound = record {
  keyed = λ r s m n _. mem-one m ∙ sym (mem-one n);
  rows = λ r m. subst⁻¹ (Fits manager.queue none) (mem-one m) job-Fits;
  bound = λ _. omega arith;
  once = refl;
  apart = refl;
}

Turns-IsSound_example :
    IsSound limits
      (finish_job 30 (Outcome.output "out/1.mp4") (cancel_job 20 1 (dequeue 10 manager)).0)
Turns-IsSound_example =
    Turns-IsSound {settings = limits} {m = manager}
      (Turns.turn
        (Turns.turn (Turns.turn Turns.unchanged (Turn.dequeues 10 refl)) (Turn.cancels 20 1))
        (Turn.finishes 30 (Outcome.output "out/1.mp4")))
      manager-IsSound

-- The job is cancelled while it waits, and the worker comes to it.
abbrev cancelled_job : JobRecord
cancelled_job = record job {
  cancel_requested = true;
  status = JobStatus.cancelled;
  updated_at = 20;
}

cancelled_never_completes_example :
    (is_cancelled cancelled_job.status || is_failed cancelled_job.status) ≡ true
unfolding cancel_job dequeue take_item
cancelled_never_completes_example =
    cancelled_never_completes {settings = limits} {m = manager}
      {m' = dequeue 30 (cancel_job 20 1 manager).0} 20 1 manager-IsSound refl
      (Turns.turn Turns.unchanged (Turn.dequeues 30 refl)) cancelled_job (Memᴰ.head refl) refl

worker_rounds-IsTerminal_example :
    (length (worker_rounds 1 (λ n. 10) (λ n. Outcome.error "no space") manager).queue ≡ 0)
    × ((r : JobRecord)
        → Memᴰ r (worker_rounds 1 (λ n. 10) (λ n. Outcome.error "no space") manager).objects
        → is_terminal r.status ≡ true)
worker_rounds-IsTerminal_example =
    worker_rounds-IsTerminal {settings = limits} 1 (λ n. 10) (λ n. Outcome.error "no space") manager
      manager-IsSound refl (omega arith)

persist_chunks-exceeds_example :
    persist_chunks (some 10) 0 (4 ∷ 7 ∷ 0 ∷ []) ≡ raised Exception.upload_too_large
unfolding uploaded_bytes
persist_chunks-exceeds_example = persist_chunks-exceeds (some 10) (4 ∷ 7 ∷ 0 ∷ [])

purge_drops_waiting_example :
    (listed_record 1 (purge_expired_jobs limits 8000 manager) ≡ none)
    × (Memᴰ "in/1_clip.mp4" (purge_expired_jobs limits 8000 manager).files → ⊥)
    × (has_key 1 (purge_expired_jobs limits 8000 manager).queue ≡ true)
unfolding has_key
purge_drops_waiting_example =
    purge_drops_waiting limits 8000 manager job (λ r s m n _. mem-one m ∙ sym (mem-one n))
      (Memᴰ.head refl) (Memᴰ.head refl) refl refl
