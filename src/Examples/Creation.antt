-- ===== src/Examples/Creation.antt =====
-- The theorem on submissions and the stage table, at a pipeline of several stages.
use media_engine.Prelude.{
  ℕ, false, none, List, [], ◌∷◌, ◌≡◌, ◌≢◌, refl, sym, ap, ◌∙◌, inl, inr, ◌+◌, ◌=ₛ◌, Memᴰ, mem-one,
  mem-two, arith, Bool-cases, str_eq_iff, find, contains, any, Result, ok, raised, ◌⊎◌,
}
use media_engine.Domain.Pipelines.{PipelineStageDefinition}
use media_engine.Domain.Catalog.{ai_prepare_pipeline, get_pipeline}
use media_engine.Domain.Positions.{position}
use media_engine.Models.{StageRun, StageDependency, Db}
use media_engine.Jobs.Requests.{Surroundings, Submission, JobSubmissionResult}
use media_engine.Jobs.Submission.{submit}
use media_engine.Scheduling.Steps.{Scheduled}
use media_engine.Scheduling.Creation.{AreDrawn}
use media_engine.Scheduling.Submitting.{submit-Scheduled}
use media_engine.Scheduling.Progress.{Activity, History}
use media_engine.Samples.{settings, probe_stage, scene_stage, scene_dependency}
use media_engine.Examples.Jobs.{stocked, around, request}
use media_engine.Examples.Scheduling.{db-Scheduled}
use media_engine.Examples.Webhooks.{settings-IsValid}

pub position-injective :
    (stages : List PipelineStageDefinition) {d e : PipelineStageDefinition}
    → Memᴰ d stages
    → Memᴰ e stages
    → position d.name stages ≡ position e.name stages
    → d.name ≡ e.name
unfolding position
position-injective [] m n h = elim m [ ]
position-injective (x ∷ stages) {d} {e} m n h = elim (Bool-cases (x.name =ₛ d.name)) [
  | inl a ↦ elim (Bool-cases (x.name =ₛ e.name)) [
    | inl b ↦ sym ((str_eq_iff x.name d.name).0 a) ∙ (str_eq_iff x.name e.name).0 b
    | inr b ↦ ground arith
  ]
  | inr a ↦ elim (Bool-cases (x.name =ₛ e.name)) [
    | inl b ↦ ground arith
    | inr b ↦ position-injective stages (later m a) (later n b) (ground arith)
  ]
]
  where
    later :
        {c : PipelineStageDefinition}
        → Memᴰ c (x ∷ stages)
        → (x.name =ₛ c.name) ≡ false
        → Memᴰ c stages
    later {c} (Memᴰ.head k) h = absurd (
        ground (
          arith,
          h,
          (str_eq_iff x.name c.name).1 (sym (ap (λ (y : PipelineStageDefinition). y.name) k)),
        ))
    later (Memᴰ.tail k) h = k

abbrev pub drawing : Surroundings
drawing = record (around 100) { stage_ids = λ name. 21 + position name ai_prepare_pipeline.stages }

abbrev pub preparation : Submission
preparation = record request { pipeline = ai_prepare_pipeline }

unfoldable pub table_after : Result (Db × JobSubmissionResult) → Db
table_after (ok (db, result)) = db
table_after (raised e) = stocked

-- The database after the submission.
unfoldable pub prepared : Db
unfolding submit position table_after
prepared = table_after (submit settings drawing [] preparation stocked)

new_ids : (s : StageRun) (n : ℕ) → (s ≡ probe_stage) ⊎ (s ≡ scene_stage) → s.id ≢ 21 + n
new_ids s n h e = ground arith

new_dependency_ids :
    (e : StageDependency) (n : ℕ)
    → e ≡ scene_dependency
    → (e.stage_run_id ≢ 21 + n) × (e.depends_on_stage_run_id ≢ 21 + n)
new_dependency_ids e n h = (λ k. ground arith, λ k. ground arith)

old_run : (s : StageRun) → (s ≡ probe_stage) ⊎ (s ≡ scene_stage) → s.pipeline_run_id ≢ 2
old_run s h e = ground arith

drawing-AreDrawn : AreDrawn drawing.stage_ids 2 ai_prepare_pipeline.stages stocked
drawing-AreDrawn = record {
  injective = λ d e m n h. position-injective ai_prepare_pipeline.stages m n (omega (arith, h));
  fresh = λ s d m n. new_ids s (position d.name ai_prepare_pipeline.stages) (mem-two m);
  fresh_stage =
      λ e d m n. (new_dependency_ids e (position d.name ai_prepare_pipeline.stages) (mem-one m)).0;
  fresh_upstream =
      λ e d m n. (new_dependency_ids e (position d.name ai_prepare_pipeline.stages) (mem-one m)).1;
  new_run = λ s m. old_run s (mem-two m);
}

pub known : get_pipeline "ai_prepare" none ≡ ok ai_prepare_pipeline
unfolding get_pipeline find
known = refl

submit-Scheduled_example : Scheduled prepared
unfolding submit position find contains any table_after prepared
submit-Scheduled_example =
    submit-Scheduled settings drawing [] preparation "ai_prepare" none stocked known
      drawing-AreDrawn settings-IsValid (λ blob r e f. absurd (ground (arith, f))) db-Scheduled refl

pub submitted : History stocked prepared
unfolding submit position find contains any table_after prepared
submitted = History.then_activity History.start (
    Activity.submits settings drawing [] preparation "ai_prepare" none _ known drawing-AreDrawn
      settings-IsValid (λ blob r e f. absurd (ground (arith, f))) refl)
