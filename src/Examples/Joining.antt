-- ===== src/Examples/Joining.antt =====
-- The theorem on progress, where a second submission joins the queued run of a first one.
use media_engine.Prelude.{
  ℕ, String, Bool, true, false, none, some, Option, List, [], ◌∷◌, ◌≡◌, ◌≢◌, refl, subst, inl, inr,
  ◌+◌, ◌==◌, ◌=ₛ◌, not, ◌&&◌, Memᴰ, arith, Bool-cases, str_eq_iff, ltb, find, contains, is_subset,
  any, all, all_of_mem, Result, ok, raised,
}
use media_engine.Domain.Pipelines.{PipelineStageDefinition}
use media_engine.Domain.Catalog.{ai_prepare_pipeline}
use media_engine.Domain.Positions.{position}
use media_engine.Models.{StageRun, StageDependency, PipelineRun, Db}
use media_engine.Jobs.Stages.{is_stage_of, stage_by_name, same_dependency}
use media_engine.Jobs.Requests.{Surroundings, Submission}
use media_engine.Jobs.Submission.{new_run, submit}
use media_engine.Workers.Leases.{claim, enabled_providers}
use media_engine.Workers.Capabilities.{capabilities_satisfy, providers_enabled}
use media_engine.Scheduling.Creation.{AreDrawn}
use media_engine.Scheduling.Joining.{HasStages}
use media_engine.Scheduling.Submitting.{IsGoingOn}
use media_engine.Scheduling.Progress.{Step, Activity, History, Needs, Live, unfinished_progress}
use media_engine.Samples.{settings, scene_stage}
use media_engine.Examples.Jobs.{source, stocked, around}
use media_engine.Examples.Scheduling.{db-Scheduled}
use media_engine.Examples.Webhooks.{settings-IsValid}
use media_engine.Examples.Creation.{
  position-injective, drawing, preparation, table_after, prepared, known, submitted,
}

-- The second submission, at time 150.
abbrev second_drawing : Surroundings
second_drawing = record (around 150) {
  run_id = 3;
  job_id = 52;
  event_id = 452;
  stage_ids = λ name. 41 + position name ai_prepare_pipeline.stages;
}

abbrev second : Submission
second = record preparation { idempotency_key = none }

joined : Db
unfolding submit position table_after
joined = table_after (submit settings second_drawing [] second prepared)

-- Whether a stage of a run is linked to one that it names.
is_linked : ℕ → Db → String → String → Bool
unfolding find any
is_linked run_id db name upstream = elim (stage_by_name run_id name db.stages) [
  | raised e ↦ true
  | ok s ↦ elim (stage_by_name run_id upstream db.stages) [
    | raised e ↦ true
    | ok u ↦
        any (same_dependency (record { stage_run_id = s.id; depends_on_stage_run_id = u.id }))
          db.dependencies
  ]
]

all_named :
    (p : String → Bool) (names : List String) (n : String)
    → all p names ≡ true
    → contains n names ≡ true
    → p n ≡ true
unfolding all contains
all_named p [] n h c = cc
all_named p (x ∷ names) n h c = elim (Bool-cases (x =ₛ n)) [
  | inl e ↦ subst (λ k. p k ≡ true) ((str_eq_iff x n).0 e) (ground arith)
  | inr e ↦ all_named p names n (ground arith) (rw e at c)
]

is_linked-found :
    (run_id : ℕ) (db : Db) (name upstream : String) (s u : StageRun)
    → is_linked run_id db name upstream ≡ true
    → stage_by_name run_id name db.stages ≡ ok s
    → stage_by_name run_id upstream db.stages ≡ ok u
    → any
        (same_dependency (record { stage_run_id = s.id; depends_on_stage_run_id = u.id }))
        db.dependencies
      ≡ true
unfolding is_linked
is_linked-found run_id db name upstream s u h e f = rw (is_linked, e, f) at h

prepared-HasStages : HasStages 2 ai_prepare_pipeline prepared
unfolding submit position find contains any all table_after prepared is_linked
prepared-HasStages = record {
  present = λ d m.
      all_of_mem (λ (d : PipelineStageDefinition). any (is_stage_of 2 d.name) prepared.stages)
        ai_prepare_pipeline.stages m refl;
  linked = λ d n s u m c e f.
      is_linked-found 2 prepared d.name n s u
        (all_named (is_linked 2 prepared d.name) d.depends_on n
          (all_of_mem
            (λ (d : PipelineStageDefinition). all (is_linked 2 prepared d.name) d.depends_on)
            ai_prepare_pipeline.stages m refl)
          c)
        e f;
}

low : (k n : ℕ) → ltb k 41 ≡ true → k ≢ 41 + n
low k n h e = ground arith

both_low :
    (e : StageDependency) (n : ℕ)
    → (ltb e.stage_run_id 41 && ltb e.depends_on_stage_run_id 41) ≡ true
    → (e.stage_run_id ≢ 41 + n) × (e.depends_on_stage_run_id ≢ 41 + n)
both_low e n h =
    (low e.stage_run_id n (ground arith), low e.depends_on_stage_run_id n (ground arith))

other_run : (k : ℕ) → (k == 3) ≡ false → k ≢ 3
other_run k h e = ground arith

second_drawing-AreDrawn : AreDrawn second_drawing.stage_ids 3 ai_prepare_pipeline.stages prepared
unfolding submit position find contains any all table_after prepared
second_drawing-AreDrawn = record {
  injective = λ d e m n h. position-injective ai_prepare_pipeline.stages m n (omega (arith, h));
  fresh = λ s d m n.
      low s.id (position d.name ai_prepare_pipeline.stages)
        (all_of_mem (λ (s : StageRun). ltb s.id 41) prepared.stages m refl);
  fresh_stage = λ e d m n.
      (both_low e (position d.name ai_prepare_pipeline.stages) (
        all_of_mem
          (λ (e : StageDependency). ltb e.stage_run_id 41 && ltb e.depends_on_stage_run_id 41)
          prepared.dependencies m refl)).0;
  fresh_upstream = λ e d m n.
      (both_low e (position d.name ai_prepare_pipeline.stages) (
        all_of_mem
          (λ (e : StageDependency). ltb e.stage_run_id 41 && ltb e.depends_on_stage_run_id 41)
          prepared.dependencies m refl)).1;
  new_run = λ s m. other_run s.pipeline_run_id (
      ground (
        arith,
        all_of_mem (λ (s : StageRun). not (s.pipeline_run_id == 3)) prepared.stages m refl,
      ));
}

abbrev first_run : PipelineRun
first_run = new_run settings drawing preparation source "digest"

some_same : {r s : PipelineRun} → some r ≡ some s → r ≡ s
some_same h = ground arith

first_run-IsGoingOn : IsGoingOn second_drawing ai_prepare_pipeline prepared first_run
first_run-IsGoingOn = inr (inr (refl, prepared-HasStages), refl)

-- A worker then claims the queued stage of the run that was there from the start.
claim_after : Result (Db × Option StageRun) → Db
claim_after (ok (db, stage)) = db
claim_after (raised e) = stocked

at_work : Db
unfolding joined claim claim_after
at_work = claim_after (claim settings 170 7 99 (λ _. false) joined)

joining : History stocked joined
unfolding submit position find contains any table_after prepared joined
joining = History.then_activity submitted (
    Activity.submits settings second_drawing [] second "ai_prepare" none _ known
      second_drawing-AreDrawn settings-IsValid
      (λ blob r e f.
        subst (IsGoingOn second_drawing ai_prepare_pipeline prepared) (some_same f)
          first_run-IsGoingOn)
      refl)

unfinished_progress_example :
    (t : StageRun) × Memᴰ t at_work.stages × Needs at_work.dependencies 12 t.id × Live t.status
unfolding submit position find contains any is_subset table_after prepared joined claim claim_after
    at_work capabilities_satisfy enabled_providers providers_enabled
unfinished_progress_example =
    unfinished_progress stocked at_work scene_stage db-Scheduled
      (History.then_activity joining
        (Activity.works (Step.claims settings 170 7 99 (λ _. false) _ refl)))
      (Memᴰ.tail (Memᴰ.head refl)) refl
