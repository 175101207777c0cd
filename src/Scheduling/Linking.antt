-- ===== src/Scheduling/Linking.antt =====
-- The dependencies that app/services/jobs.py, JobService._ensure_stages, inserts for a run that had
-- no stages.
use media_engine.Prelude.{
  ℕ, String, true, false, List, [], ◌∷◌, ◌≡◌, ◌≢◌, refl, sym, ap, ◌∙◌, subst, subst⁻¹, ◌⊎◌, inl,
  inr, Memᴰ, arith, ◌=ₛ◌, str_eq_refl, Bool-cases, any, any_witness, contains, mem-append_left,
  mem-append_last, mem-append_cases, ok, Holds, Holds-bind, Holds-ok, Holds-mono,
}
use media_engine.Domain.Pipelines.{PipelineStageDefinition}
use media_engine.Models.{is_completed, StageRun, StageDependency}
use media_engine.Jobs.Stages.{
  stage_by_name, same_dependency, insert_dependency, link_stage, link_stages,
}
use media_engine.Scheduling.Inserting.{IsInserted, initial-open, stage_by_name-IsStageOf}

insert_dependency-cases :
    {e : StageDependency} (d : StageDependency) (dependencies : List StageDependency)
    → Memᴰ e (insert_dependency d dependencies)
    → Memᴰ e dependencies ⊎ (e ≡ d)
insert_dependency-cases d dependencies m =
    elim (Bool-cases (any (same_dependency d) dependencies)) [
      | inl present ↦ inl (rw present at m)
      | inr absent ↦ mem-append_cases dependencies d (rw absent at m)
    ]

insert_dependency-kept :
    {e : StageDependency} (d : StageDependency) (dependencies : List StageDependency)
    → Memᴰ e dependencies
    → Memᴰ e (insert_dependency d dependencies)
insert_dependency-kept d dependencies m = elim (Bool-cases (any (same_dependency d) dependencies)) [
  | inl present ↦ rw present m
  | inr absent ↦ rw absent (mem-append_left dependencies (d ∷ []) m)
]

insert_dependency-there :
    (d : StageDependency) (dependencies : List StageDependency)
    → (e : StageDependency) × Memᴰ e (insert_dependency d dependencies)
      × (e.stage_run_id ≡ d.stage_run_id)
      × (e.depends_on_stage_run_id ≡ d.depends_on_stage_run_id)
insert_dependency-there d dependencies = elim (Bool-cases (any (same_dependency d) dependencies)) [
  | inl present ↦
      let (e, m, same) = any_witness (same_dependency d) dependencies present in
      (e, rw present m, ground (arith, same), ground (arith, same))
  | inr absent ↦ (d, rw absent (mem-append_last dependencies d), refl, refl)
]

module _ (stage_ids : String → ℕ) (all : List PipelineStageDefinition) where
  -- A dependency of a stage of the pipeline on one that its definition names.
  pub record IsLink (e : StageDependency) : Type 0 where
    pub stage : PipelineStageDefinition
    pub upstream : PipelineStageDefinition
    pub stage_in : Memᴰ stage all
    pub upstream_in : Memᴰ upstream all
    pub names : contains upstream.name stage.depends_on ≡ true
    pub stage_is : e.stage_run_id ≡ stage_ids stage.name
    pub upstream_is : e.depends_on_stage_run_id ≡ stage_ids upstream.name

  pub record IsLinked (before after : List StageDependency) : Type 0 where
    pub from : (e : StageDependency) → Memᴰ e after → Memᴰ e before ⊎ IsLink e
    pub kept : (e : StageDependency) → Memᴰ e before → Memᴰ e after

  pub IsLinked-refl : (dependencies : List StageDependency) → IsLinked dependencies dependencies
  IsLinked-refl dependencies = record { from = λ e m. inl m; kept = λ e m. m }

  IsLinked-trans : {a b c : List StageDependency} → IsLinked a b → IsLinked b c → IsLinked a c
  IsLinked-trans v w = record {
    from = λ e m. elim (w.from e m) [ inl n ↦ v.from e n | inr l ↦ inr l ];
    kept = λ e m. w.kept e (v.kept e m);
  }

  insert-IsLinked :
      (d : StageDependency) (dependencies : List StageDependency)
      → IsLink d
      → IsLinked dependencies (insert_dependency d dependencies)
  insert-IsLinked d dependencies l = record {
    from = λ e m. elim (insert_dependency-cases d dependencies m) [
      | inl n ↦ inl n
      | inr h ↦ inr (subst⁻¹ IsLink h l)
    ];
    kept = λ e m. insert_dependency-kept d dependencies m;
  }

-- What a stage with a key waits for.
pub record IsWaited (stages : List StageRun) (dependencies : List StageDependency) (id : ℕ)
    : Type 0 where
  pub dependency : StageDependency
  pub upstream : StageRun
  pub dependency_in : Memᴰ dependency dependencies
  pub upstream_in : Memᴰ upstream stages
  pub stage_is : dependency.stage_run_id ≡ id
  pub upstream_is : upstream.id ≡ dependency.depends_on_stage_run_id
  pub waited : is_completed upstream.status ≡ false

module _ {stage_ids : String → ℕ} {run_id : ℕ} {old stages : List StageRun}
    {all : List PipelineStageDefinition} (v : IsInserted stage_ids run_id old all stages)
    (new_run : (s : StageRun) → Memᴰ s old → s.pipeline_run_id ≢ run_id) where
  -- What the links of a stage leave: its names have become dependencies.
  record AfterLinks (d : PipelineStageDefinition) (names : List String)
      (before after : List StageDependency) : Type 0 where
    linked : IsLinked stage_ids all before after
    waits : (n : String) → contains n names ≡ true → IsWaited stages after (stage_ids d.name)

  still-IsWaited :
      {before after : List StageDependency} {id : ℕ}
      → IsLinked stage_ids all before after
      → IsWaited stages before id
      → IsWaited stages after id
  still-IsWaited l w = record {
    dependency = w.dependency;
    upstream = w.upstream;
    dependency_in = l.kept w.dependency w.dependency_in;
    upstream_in = w.upstream_in;
    stage_is = w.stage_is;
    upstream_is = w.upstream_is;
    waited = w.waited;
  }

  -- The first link of a stage, and then the others.
  first_link :
      (stage : StageRun) (d : PipelineStageDefinition) (name : String) (names : List String)
      (dependencies after : List StageDependency) {up : StageRun}
      → stage.id ≡ stage_ids d.name
      → Memᴰ d all
      → contains name d.depends_on ≡ true
      → stage_by_name run_id name stages ≡ ok up
      → AfterLinks d names
          (insert_dependency
            (record { stage_run_id = stage.id; depends_on_stage_run_id = up.id })
            dependencies)
          after
      → AfterLinks d (name ∷ names) dependencies after
  unfolding contains
  first_link stage d name names dependencies after {up} key m within h rest =
      let (mu, e, me, made, named) = stage_by_name-IsStageOf v new_run name h in
      let link : StageDependency = record {
        stage_run_id = stage.id;
        depends_on_stage_run_id = up.id;
      } in
      let (f, mf, at, on) = insert_dependency-there link dependencies in
      record {
        linked =
            IsLinked-trans stage_ids all
              (insert-IsLinked stage_ids all link dependencies (record {
                stage = d;
                upstream = e;
                stage_in = m;
                upstream_in = me;
                names = subst⁻¹ (λ n. contains n d.depends_on ≡ true) named within;
                stage_is = key;
                upstream_is = made.id_is;
              }))
              rest.linked;
        waits = λ n k. elim (Bool-cases (name =ₛ n)) [
          | inr other ↦ rest.waits n (rw other at k)
          | inl here ↦ still-IsWaited rest.linked (record {
            dependency = f;
            upstream = up;
            dependency_in = mf;
            upstream_in = mu;
            stage_is = at ∙ key;
            upstream_is = sym on;
            waited = ap is_completed made.status_is ∙ initial-open e;
          })
        ];
      }

  link_stage-AfterLinks :
      (stage : StageRun) (d : PipelineStageDefinition) (names : List String)
      (dependencies : List StageDependency)
      → stage.id ≡ stage_ids d.name
      → Memᴰ d all
      → ((n : String) → contains n names ≡ true → contains n d.depends_on ≡ true)
      → Holds (AfterLinks d names dependencies) (link_stage run_id stages stage names dependencies)
  unfolding link_stage contains
  link_stage-AfterLinks stage d [] dependencies key m within = record {
    linked = IsLinked-refl stage_ids all dependencies;
    waits = λ n h. cc;
  }
  link_stage-AfterLinks stage d (name ∷ names) dependencies key m within =
      Holds-bind (AfterLinks d (name ∷ names) dependencies) (stage_by_name run_id name stages) _
        λ up h.
          Holds-mono _ _ _
            (λ after.
              first_link stage d name names dependencies after key m
                (within name (ground (arith, str_eq_refl name))) h)
            (link_stage-AfterLinks stage d names _ key m (λ n k. within n (ground (arith, k))))

  -- What the second loop leaves: every name on which a definition depends is waited for.
  pub record AreLinked (definitions : List PipelineStageDefinition)
      (before after : List StageDependency) : Type 0 where
    pub linked : IsLinked stage_ids all before after
    pub waits :
        (d : PipelineStageDefinition) (n : String)
        → Memᴰ d definitions
        → contains n d.depends_on ≡ true
        → IsWaited stages after (stage_ids d.name)

  first_stage :
      (d : PipelineStageDefinition) (definitions : List PipelineStageDefinition)
      (before between after : List StageDependency)
      → AfterLinks d d.depends_on before between
      → AreLinked definitions between after
      → AreLinked (d ∷ definitions) before after
  first_stage d definitions before between after one rest = record {
    linked = IsLinked-trans stage_ids all one.linked rest.linked;
    waits = waits_on;
  }
    where
      waits_on :
          (c : PipelineStageDefinition) (n : String)
          → Memᴰ c (d ∷ definitions)
          → contains n c.depends_on ≡ true
          → IsWaited stages after (stage_ids c.name)
      waits_on c n (Memᴰ.tail m) h = rest.waits c n m h
      waits_on c n (Memᴰ.head e) h =
          subst⁻¹ (λ (x : PipelineStageDefinition). IsWaited stages after (stage_ids x.name)) e
            (still-IsWaited rest.linked (
              one.waits n
                (subst (λ (x : PipelineStageDefinition). contains n x.depends_on ≡ true) e h)))

  pub link_stages-AreLinked :
      (definitions : List PipelineStageDefinition) (dependencies : List StageDependency)
      → ((d : PipelineStageDefinition) → Memᴰ d definitions → Memᴰ d all)
      → Holds
          (AreLinked definitions dependencies)
          (link_stages run_id stages definitions dependencies)
  unfolding link_stages
  link_stages-AreLinked [] dependencies within = record {
    linked = IsLinked-refl stage_ids all dependencies;
    waits = λ d n m h. elim m [ ];
  }
  link_stages-AreLinked (d ∷ definitions) dependencies within =
      Holds-bind (AreLinked (d ∷ definitions) dependencies) (stage_by_name run_id d.name stages) _
        λ stage h.
          let (_, e, _, made, named) = stage_by_name-IsStageOf v new_run d.name h in
          Holds-bind (AreLinked (d ∷ definitions) dependencies)
            (link_stage run_id stages stage d.depends_on dependencies) _
            λ between k.
              Holds-mono _ _ _
                (λ after. first_stage d definitions dependencies between after (
                  Holds-ok (AfterLinks d d.depends_on dependencies) _
                    (link_stage-AfterLinks stage d d.depends_on dependencies
                      (made.id_is ∙ ap stage_ids named) (within d (Memᴰ.head refl)) (λ n c. c))
                    k))
                (link_stages-AreLinked definitions between (λ c m. within c (Memᴰ.tail m)))
