-- ===== src/Examples/Scheduling.antt =====
-- The sample database is scheduled, and its first stage is claimed.
use media_engine.Prelude.{
  true, false, some, [], ◌∷◌, Memᴰ, ◌≡◌, refl, ok, arith, ◌⊎◌, mem-one, mem-two, ◌<◌, find,
  contains, is_subset,
}
use media_engine.Models.{Status, is_blocked, StageRun, StageDependency, Db}
use media_engine.Workers.Leases.{claim, leased, enabled_providers}
use media_engine.Scheduling.Steps.{Scheduled}
use media_engine.Workers.Capabilities.{capabilities_satisfy, providers_enabled}
use media_engine.Samples.{
  settings, worker, run, job, db, probe_stage, scene_stage, scene_dependency,
}

falls : (e : StageDependency) → e ≡ scene_dependency → e.depends_on_stage_run_id < e.stage_run_id
falls e h = ground arith

unique :
    (s t : StageRun)
    → (s ≡ probe_stage) ⊎ (s ≡ scene_stage)
    → (t ≡ probe_stage) ⊎ (t ≡ scene_stage)
    → s.id ≡ t.id
    → s ≡ t
unique s t h k e = ground arith

blocked_is_scene :
    (s : StageRun)
    → (s ≡ probe_stage) ⊎ (s ≡ scene_stage)
    → is_blocked s.status ≡ true
    → scene_dependency.stage_run_id ≡ s.id
blocked_is_scene s h b = ground arith

open_has_none :
    (s : StageRun) (e : StageDependency)
    → (s ≡ probe_stage) ⊎ (s ≡ scene_stage)
    → e ≡ scene_dependency
    → is_blocked s.status ≡ false
    → e.stage_run_id ≡ s.id
    → ⊥
open_has_none s e h k b i = ground arith

pub db-Scheduled : Scheduled db
db-Scheduled = record {
  rank = λ n. n;
  falls = λ e m. falls e (mem-one m);
  unique = λ s t m n e. unique s t (mem-two m) (mem-two n) e;
  blocked_waits = λ s m b. (
    scene_dependency,
    probe_stage,
    Memᴰ.head refl,
    Memᴰ.head refl,
    blocked_is_scene s (mem-two m) b,
    refl,
    refl,
  );
  open_ready = λ s t e m n me b i j. absurd (open_has_none s e (mem-two m) (mem-one me) b i);
}

-- The worker claims the first stage at time 20, under the token 99.
unfoldable pub claimed : Db
claimed = record db {
  workers = record worker { last_seen_at = some 20 } ∷ [];
  stages = leased settings 20 7 99 probe_stage ∷ scene_stage ∷ [];
  runs = record run { status = Status.running } ∷ [];
  jobs = record job { status = Status.running; updated_at = 20 } ∷ [];
}

pub claim_first :
    claim settings 20 7 99 (λ _. false) db
    ≡ ok (claimed, some (leased settings 20 7 99 probe_stage))
unfolding claim claimed capabilities_satisfy enabled_providers providers_enabled is_subset contains
    find
claim_first = refl
