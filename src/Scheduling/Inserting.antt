-- ===== src/Scheduling/Inserting.antt =====
-- The stages that app/services/jobs.py, JobService._ensure_stages, inserts for a run that has none.
use media_engine.Prelude.{
  ℕ, String, true, false, List, [], ◌∷◌, ◌++◌, ◌≡◌, ◌≢◌, refl, sym, ◌∙◌, ◌⊎◌, inl, inr, Memᴰ, arith,
  &&-true, ==_iff, str_eq_iff, str_eq_refl, Bool-cases, List-cases, if◌then◌else◌, any, any-false,
  find-mem, find_holds, contains, IsKeyed, append-IsKeyed, mem-append_left, mem-append_cases,
  Result, ok, ◌>>=◌, or_raise-eq-ok, Holds, Holds-bind, Holds-ok,
}
use media_engine.Domain.Pipelines.{PipelineStageDefinition, PipelineDefinition}
use media_engine.Models.{is_blocked, is_completed, CapabilityMap, StageRun, PipelineRun}
use media_engine.Settings.{Settings}
use media_engine.Jobs.Stages.{is_stage_of, initial_status, new_stage, insert_stages, stage_by_name}

pub initial-open : (d : PipelineStageDefinition) → is_completed (initial_status d) ≡ false
initial-open d = ground arith

-- A stage is blocked if its definition has a dependency, and only then.
pub initial-blocked :
    (d : PipelineStageDefinition)
    → is_blocked (initial_status d) ≡ true
    → (n : String) × (contains n d.depends_on ≡ true)
unfolding contains
initial-blocked d h = elim (List-cases d.depends_on) [
  | inl e ↦ cc
  | inr (n, names, e) ↦ (n, rw e (ground (arith, str_eq_refl n)))
]

pub initial-free :
    (d : PipelineStageDefinition) (n : String)
    → is_blocked (initial_status d) ≡ false
    → contains n d.depends_on ≡ true
    → ⊥
unfolding contains
initial-free d n h c = elim (List-cases d.depends_on) [
  | inl e ↦ let none_named = rw e at c in cc
  | inr (m, names, e) ↦ cc
]

-- The row that is made for a stage of the pipeline.
pub record IsStageOf (stage_ids : String → ℕ) (run_id : ℕ) (d : PipelineStageDefinition)
    (s : StageRun) : Type 0 where
  pub id_is : s.id ≡ stage_ids d.name
  pub run_is : s.pipeline_run_id ≡ run_id
  pub name_is : s.stage_name ≡ d.name
  pub status_is : s.status ≡ initial_status d

-- The table with rows that were made for stages of `all`.
pub record IsInserted (stage_ids : String → ℕ) (run_id : ℕ) (old : List StageRun)
    (all : List PipelineStageDefinition) (stages : List StageRun) : Type 0 where
  pub from :
      (s : StageRun)
      → Memᴰ s stages
      → Memᴰ s old ⊎ ((d : PipelineStageDefinition) × Memᴰ d all × IsStageOf stage_ids run_id d s)
  pub kept : (s : StageRun) → Memᴰ s old → Memᴰ s stages
  pub keyed : IsKeyed (λ (s : StageRun). s.id) stages

module _ (stage_ids : String → ℕ) (run_id : ℕ) (old : List StageRun)
    (all : List PipelineStageDefinition)
    (injective : (d e : PipelineStageDefinition)
      → Memᴰ d all
      → Memᴰ e all
      → stage_ids d.name ≡ stage_ids e.name
      → d.name ≡ e.name)
    (fresh : (s : StageRun) (d : PipelineStageDefinition)
      → Memᴰ s old
      → Memᴰ d all
      → s.id ≢ stage_ids d.name) where
  append-IsInserted :
      (d : PipelineStageDefinition) (s : StageRun) (stages : List StageRun)
      → Memᴰ d all
      → IsStageOf stage_ids run_id d s
      → any (is_stage_of run_id d.name) stages ≡ false
      → IsInserted stage_ids run_id old all stages
      → IsInserted stage_ids run_id old all (stages ++ s ∷ [])
  append-IsInserted d s stages m made absent v = record {
    from = λ t n. elim (mem-append_cases stages s n) [
      | inl before ↦ v.from t before
      | inr e ↦ inr (d, m, rw e made)
    ];
    kept = λ t n. mem-append_left stages (s ∷ []) (v.kept t n);
    keyed = append-IsKeyed (λ (t : StageRun). t.id) s stages other v.keyed;
  }
    where
      same_stage :
          (t : StageRun) (e : PipelineStageDefinition)
          → IsStageOf stage_ids run_id e t
          → e.name ≡ d.name
          → is_stage_of run_id d.name t ≡ true
      same_stage t e made' names =
          ground (arith, made'.run_is, str_eq_iff t.stage_name d.name, made'.name_is ∙ names)

      other : (t : StageRun) → Memᴰ t stages → t.id ≢ s.id
      other t n h = elim (v.from t n) [
        | inl before ↦ fresh t d before m (h ∙ made.id_is)
        | inr (e, k, made') ↦
            let names = injective e d k m (sym made'.id_is ∙ h ∙ made.id_is) in
            absurd (
              ground (
                arith,
                same_stage t e made' names,
                any-false (is_stage_of run_id d.name) stages n absent,
              ))
      ]

module _ (stage_ids : String → ℕ) (settings : Settings) (now : ℕ) (run : PipelineRun)
    (pipeline : PipelineDefinition) (old : List StageRun) (all : List PipelineStageDefinition)
    (injective : (d e : PipelineStageDefinition)
      → Memᴰ d all
      → Memᴰ e all
      → stage_ids d.name ≡ stage_ids e.name
      → d.name ≡ e.name)
    (fresh : (s : StageRun) (d : PipelineStageDefinition)
      → Memᴰ s old
      → Memᴰ d all
      → s.id ≢ stage_ids d.name) where
  insert_one :
      {A : Type 0} (d : PipelineStageDefinition) (stages : List StageRun) (r : Result A)
      (capabilities : A → CapabilityMap)
      → Memᴰ d all
      → IsInserted stage_ids run.id old all stages
      → Holds (IsInserted stage_ids run.id old all) (
          if any (is_stage_of run.id d.name) stages
          then ok stages
          else r >>= λ a.
              ok (stages ++ new_stage (stage_ids d.name) now run.id d (capabilities a) ∷ []))
  insert_one d stages r capabilities m v =
      elim (Bool-cases (any (is_stage_of run.id d.name) stages)) [
        | inl present ↦ rw present v
        | inr absent ↦ rw absent (
            Holds-bind (IsInserted stage_ids run.id old all) r _ λ a _.
              append-IsInserted stage_ids run.id old all injective fresh d _ stages m
                (record { id_is = refl; run_is = refl; name_is = refl; status_is = refl }) absent v)
      ]

  pub insert_stages-IsInserted :
      (definitions : List PipelineStageDefinition) (stages : List StageRun)
      → ((d : PipelineStageDefinition) → Memᴰ d definitions → Memᴰ d all)
      → IsInserted stage_ids run.id old all stages
      → Holds
          (IsInserted stage_ids run.id old all)
          (insert_stages settings stage_ids now run pipeline definitions stages)
  unfolding insert_stages
  insert_stages-IsInserted [] stages within v = v
  insert_stages-IsInserted (d ∷ definitions) stages within v =
      Holds-bind (IsInserted stage_ids run.id old all) _ _ λ stages' e.
        insert_stages-IsInserted definitions stages' (λ c m. within c (Memᴰ.tail m))
          (Holds-ok (IsInserted stage_ids run.id old all) _
            (insert_one d stages _ _ (within d (Memᴰ.head refl)) v) e)

module _ {stage_ids : String → ℕ} {run_id : ℕ} {old stages : List StageRun}
    {all : List PipelineStageDefinition} (v : IsInserted stage_ids run_id old all stages)
    (new_run : (s : StageRun) → Memᴰ s old → s.pipeline_run_id ≢ run_id) where
  -- A stage that is found by its name was made for it.
  pub stage_by_name-IsStageOf :
      (n : String) {s : StageRun}
      → stage_by_name run_id n stages ≡ ok s
      → Memᴰ s stages
        × (d : PipelineStageDefinition) × Memᴰ d all
        × IsStageOf stage_ids run_id d s
        × (d.name ≡ n)
  stage_by_name-IsStageOf n {s} h =
      let found = or_raise-eq-ok _ _ h in
      let m = find-mem (is_stage_of run_id n) stages found in
      let (of_run, named) = &&-true _ _ (find_holds (is_stage_of run_id n) stages found) in
      elim (v.from s m) [
        | inl before ↦ absurd (new_run s before ((==_iff s.pipeline_run_id run_id).0 of_run))
        | inr (d, k, made) ↦ (m, d, k, made, sym made.name_is ∙ (str_eq_iff s.stage_name n).0 named)
      ]
