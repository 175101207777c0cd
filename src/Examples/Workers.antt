-- ===== src/Examples/Workers.antt =====
-- The theorems on claims and on the status of a run at the sample database.
use media_engine.Prelude.{true, false, [], ◌∷◌, Memᴰ, ◌≡◌, ◌↔◌, refl, inr, arith, find}
use media_engine.Models.{Status, is_completed, StageRun, PipelineRun, Db}
use media_engine.Workers.Leases.{leased, locked_stage}
use media_engine.Workers.Failure.{failed_stage, fail}
use media_engine.Workers.StageGraph.{derive_run_status}
use media_engine.Workers.Fencing.{Refused}
use media_engine.Workers.Claims.{Granted, claim-Granted, reclaimed-Refused}
use media_engine.Workers.Outcomes.{OfRun, derive_run_status-completed, retry_hides_failure}
use media_engine.Scheduling.Rows.{IsLeasable, Leasable}
use media_engine.Scheduling.Leases.{Reach-Leasable}
use media_engine.Scheduling.Progress.{Step, Reach}
use media_engine.Samples.{settings, run, job, db, fresh_stage, probe_stage, scene_stage}
use media_engine.Examples.Scheduling.{claimed, claim_first, db-Scheduled}
use media_engine.Examples.Leases.{store, ids, report}

claim-Granted_example :
    Granted settings 20 7 99 (λ _. false) db claimed (leased settings 20 7 99 probe_stage)
claim-Granted_example =
    claim-Granted settings 20 7 99 (λ _. false) db claimed (leased settings 20 7 99 probe_stage)
      claim_first

reclaimed-Refused_example : Refused settings store ids 30 (report 98) claimed
reclaimed-Refused_example =
    reclaimed-Refused settings store ids 20 30 7 99 (λ _. false) (report 98) db claimed
      (leased settings 20 7 99 probe_stage) db-Scheduled claim_first refl (inr refl)

db-Leasable : Leasable db
db-Leasable = (fresh, (fresh_blocked, tt))
  where
    fresh : IsLeasable probe_stage
    fresh = record {
      bound = omega arith;
      attempt_left = λ _. omega arith;
      limited = refl;
      owned = λ h. cc;
    }

    fresh_blocked : IsLeasable scene_stage
    fresh_blocked = record {
      bound = omega arith;
      attempt_left = λ _. omega arith;
      limited = refl;
      owned = λ h. cc;
    }

Reach-Leasable_example : Leasable claimed
Reach-Leasable_example =
    Reach-Leasable (Reach.next Reach.here (Step.claims settings 20 7 99 (λ _. false) _ claim_first))
      db-Leasable

derive_run_status-completed_example :
    (derive_run_status (probe_stage ∷ scene_stage ∷ []) 1 ≡ Status.completed) ↔ (
      ((s : StageRun) × OfRun (probe_stage ∷ scene_stage ∷ []) 1 s)
      × ((s : StageRun)
          → OfRun (probe_stage ∷ scene_stage ∷ []) 1 s
          → is_completed s.status ≡ true))
derive_run_status-completed_example = derive_run_status-completed (probe_stage ∷ scene_stage ∷ []) 1

-- A run whose one stage runs for the first time while another has failed for good.
abbrev running_audio : StageRun
running_audio = leased settings 20 7 99 (fresh_stage 13 "audio_extract" Status.queued)

abbrev dead_scene : StageRun
dead_scene = record scene_stage { status = Status.failed; attempt = 3 }

broken : Db
broken = record db {
  stages = running_audio ∷ dead_scene ∷ [];
  runs = record run { status = Status.failed } ∷ [];
  jobs = record job { status = Status.failed } ∷ [];
}

requeued : Db
unfolding broken
requeued = record broken {
  stages = failed_stage 30 "out of disk space" running_audio ∷ dead_scene ∷ [];
  runs = record run { status = Status.queued } ∷ [];
}

retry_hides_failure_example :
    ((r : PipelineRun) × Memᴰ r requeued.runs × (r.id ≡ 1) × (r.status ≡ Status.queued))
    × (derive_run_status requeued.stages 1 ≡ Status.failed)
unfolding broken requeued fail locked_stage find
retry_hides_failure_example =
    retry_hides_failure 30 (λ n. n) 7 13 99 "out of disk space" [] broken requeued running_audio
      dead_scene (failed_stage 30 "out of disk space" running_audio) refl refl
      (Memᴰ.tail (Memᴰ.head refl)) refl refl refl refl
