-- ===== src/JobQueue/Records.antt =====
-- app/models.py and app/jobs.py, JobRecord: what the queue of transcodes keeps of a job.
use media_engine.Prelude.{ℕ, String, Bool, true, false, Option, List}

pub data JobStatus : Type 0 where
  queued processing completed failed cancelled : JobStatus

pub data QualityTarget : Type 0 where
  auto uhd_2160p fhd_1080p hd_720p sd_480p audio_only : QualityTarget

pub data CodecPreference : Type 0 where
  auto h264 h265 : CodecPreference

pub record TranscodeRequest : Type 0 where
  pub quality : QualityTarget
  pub codec : CodecPreference
  pub callback_url : Option String

-- Less the figures that the transcoder measures of the media.
pub record JobRecord : Type 0 where
  pub job_id : ℕ
  pub status : JobStatus
  pub created_at : ℕ
  pub updated_at : ℕ
  pub source_path : String
  pub source_filename : String
  pub output_path : Option String
  pub quality : QualityTarget
  pub codec : CodecPreference
  pub callback_url : Option String
  pub error : Option String
  pub download_started_at : Option ℕ
  pub download_finished_at : Option ℕ
  pub transcode_started_at : Option ℕ
  pub transcode_finished_at : Option ℕ
  pub cancel_requested : Bool

pub record CallbackPayload : Type 0 where
  pub job_id : ℕ
  pub status : JobStatus
  pub output_path : Option String
  pub message : String

-- A WorkItem: the key of its record, and the request.
abbrev pub WorkItem : Type 0
WorkItem = ℕ × TranscodeRequest

-- A JobManager. `objects` are the record objects that were made, which the queue and the worker go on
-- holding after `records` has dropped their key; `records` are its keys, `current` the item that the
-- worker has taken, `files` the paths that hold a file and `callbacks` what was sent.
pub record JobManager : Type 0 where
  pub objects : List JobRecord
  pub records : List ℕ
  pub queue : List WorkItem
  pub current : Option WorkItem
  pub files : List String
  pub callbacks : List (String × CallbackPayload)

pub record QueueSettings : Type 0 where
  pub max_queue_size : ℕ
  pub max_upload_bytes : Option ℕ
  pub job_retention_minutes : ℕ

abbrev pub is_queued : JobStatus → Bool
is_queued JobStatus.queued = true
is_queued _ = false

abbrev pub is_processing : JobStatus → Bool
is_processing JobStatus.processing = true
is_processing _ = false

abbrev pub is_completed : JobStatus → Bool
is_completed JobStatus.completed = true
is_completed _ = false

abbrev pub is_failed : JobStatus → Bool
is_failed JobStatus.failed = true
is_failed _ = false

abbrev pub is_cancelled : JobStatus → Bool
is_cancelled JobStatus.cancelled = true
is_cancelled _ = false
