-- ===== src/Examples/Leases.antt =====
-- The theorems on leases at the sample database, once its first stage is claimed.
use media_engine.Prelude.{
  ℕ, contains, order_by, ◌+◌, String, none, some, [], ◌∷◌, ◌≡◌, refl, inr, arith, ok, find,
}
use media_engine.Models.{Status, BlobState, StageRun, Db}
use media_engine.Workers.Leases.{leased, locked_stage}
use media_engine.Workers.Failure.{failed_stage, fail}
use media_engine.Workers.Contract.{ArtifactCompletion}
use media_engine.Workers.Publication.{publish, ObjectStore, NewIds}
use media_engine.Workers.Completion.{completed_stage, complete}
use media_engine.Workers.Fencing.{Report, Refused, stale-Refused, failed-Refused}
use media_engine.Workers.Replays.{complete_again}
use media_engine.Samples.{settings, worker, run, job, probe_stage, scene_stage}
use media_engine.Examples.Scheduling.{claimed}

abbrev digest : String
digest = "aaaaaaaaaaaaaaaaaaaaaaaaaaaaaaaaaaaaaaaaaaaaaaaaaaaaaaaaaaaaaaaa"

abbrev pub store : ObjectStore
store key = some (record { size_bytes = 10; sha256 = some digest })

abbrev pub ids : NewIds
ids = record { blob_ids = λ _. 200; artifact_ids = λ _. 300; event_ids = λ job_id. job_id + 400 }

abbrev metadata : ArtifactCompletion
metadata = record {
  sha256 = digest;
  size_bytes = 10;
  media_type = none;
  artifact_type = "media_metadata";
  format = "json";
  schema_version = "1";
}

-- The worker's own lease token is 99.
abbrev pub report : ℕ → Report
report lease_token = record {
  worker_id = 7;
  stage_id = 11;
  lease_token = lease_token;
  progress = some 500;
  error_message = "out of disk space";
  artifacts = metadata ∷ [];
  usage_events = [];
}

abbrev running_probe : StageRun
running_probe = leased settings 20 7 99 probe_stage

stale-Refused_example : Refused settings store ids 110 (report 99) claimed
unfolding locked_stage claimed find
stale-Refused_example =
    stale-Refused settings store ids 110 (report 99) claimed running_probe refl
      (inr ((λ h. ground arith), inr (inr (110, refl, omega arith))))

abbrev failed_probe : StageRun
failed_probe = failed_stage 30 "out of disk space" running_probe

failed : Db
unfolding claimed
failed = record claimed {
  stages = failed_probe ∷ scene_stage ∷ [];
  runs = record run { status = Status.queued } ∷ [];
  jobs = record job { status = Status.queued; updated_at = 30 } ∷ [];
}

failed-Refused_example : Refused settings store ids 40 (report 99) failed
unfolding fail failed
failed-Refused_example =
    failed-Refused settings store ids 30 40 (report 99) (report 99) claimed failed failed_probe refl
      refl

completed_probe : Db
unfolding claimed
completed_probe = record claimed {
  workers = record worker { last_seen_at = some 30 } ∷ [];
  stages = completed_stage 30 running_probe ∷ record scene_stage { status = Status.queued } ∷ [];
  runs = record run { status = Status.queued } ∷ [];
  jobs = record job { status = Status.queued; updated_at = 30 } ∷ [];
  blobs =
      record {
        id = 200;
        sha256 = digest;
        size_bytes = 10;
        media_type = none;
        object_key =
            "blobs/sha256/aa/aaaaaaaaaaaaaaaaaaaaaaaaaaaaaaaaaaaaaaaaaaaaaaaaaaaaaaaaaaaaaaaa";
        state = BlobState.available;
        expires_at = 86430;
        expired_at = none;
      }
      ∷ [];
  artifacts =
      record {
        id = 300;
        pipeline_run_id = 1;
        producer_stage_run_id = 11;
        blob_id = 200;
        artifact_type = "media_metadata";
        format = "json";
        schema_version = "1";
        expires_at = 86430;
      }
      ∷ [];
}

-- The other stage is claimed meanwhile.
completed_later : Db
unfolding completed_probe
completed_later = record completed_probe {
  stages = completed_stage 30 running_probe ∷ leased settings 40 7 98 scene_stage ∷ [];
}

complete_again_example :
    complete settings store ids 50 7 11 99 [] [] completed_later
    ≡ ok (completed_later, completed_stage 30 running_probe)
unfolding complete claimed completed_probe completed_later contains order_by publish
complete_again_example =
    complete_again settings store store ids ids 30 50 7 11 99 (metadata ∷ []) [] [] [] claimed
      completed_probe completed_later (completed_stage 30 running_probe) refl refl
