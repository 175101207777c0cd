-- ===== src/Domain/Graphs.antt =====
-- The order of the stages of app/domain/pipelines.py, and the types of their outputs.
use media_engine.Prelude.{
  String, Bool, true, not, Option, some, List, [], ◌∷◌, ◌++◌, map, ◌&&◌, ◌≡◌, refl, subst, ◌⊎◌, inl,
  inr, contains, is_subset, all_distinct, find-mem, find_holds, All, All-mem, Option-cases, arith,
  str_eq_iff, ok, is_subset-contains, Memᴰ, &&-true,
}
use media_engine.Domain.Pipelines.{
  PipelineStageDefinition, PipelineDefinition, allowed_artifact_types,
}
use media_engine.Domain.Catalog.{pipelines, has_key, resolve_version, pipeline_at, get_pipeline}

abbrev pub stage_names : List PipelineStageDefinition → List String
stage_names = map (λ stage. stage.name)

-- Every stage is new, and depends on stages before it.
unfoldable pub well_ordered : List String → List PipelineStageDefinition → Bool
well_ordered seen [] = true
well_ordered seen (stage ∷ stages) =
    not (contains stage.name seen)
    && is_subset stage.depends_on seen
    && well_ordered (stage.name ∷ seen) stages

abbrev pub all_allowed : List PipelineStageDefinition → List String
all_allowed [] = []
all_allowed (stage ∷ stages) = allowed_artifact_types stage ++ all_allowed stages

-- What a check of the whole table gives of each pipeline.
abbrev IsSound : PipelineDefinition → Type 0
IsSound d = (well_ordered [] d.stages ≡ true) × (all_distinct (all_allowed d.stages) ≡ true)

pipelines-IsSound : All IsSound pipelines
unfolding well_ordered all_distinct contains is_subset
pipelines-IsSound = ((refl, refl), ((refl, refl), ((refl, refl), ((refl, refl), tt))))

pipeline_at-mem :
    (name version : String) (d : PipelineDefinition)
    → pipeline_at name version ≡ some d
    → Memᴰ d pipelines × (d.name ≡ name) × (d.version ≡ version)
unfolding pipeline_at
pipeline_at-mem name version d h =
    let (n, v) = &&-true _ _ (find_holds (has_key name version) pipelines h) in
    (
      find-mem (has_key name version) pipelines h,
      (str_eq_iff d.name name).0 n,
      (str_eq_iff d.version version).0 v,
    )

get_pipeline-at :
    (name : String) (version : Option String) (d : PipelineDefinition)
    → get_pipeline name version ≡ ok d
    → (v : String) × (resolve_version name version ≡ some v) × (pipeline_at name v ≡ some d)
unfolding get_pipeline
get_pipeline-at name version d h = elim (Option-cases (resolve_version name version)) [
  | inl e ↦ ground arith
  | inr (v, e) ↦ (v, e, ground arith)
]

get_pipeline-mem :
    (name : String) (version : Option String) (d : PipelineDefinition)
    → get_pipeline name version ≡ ok d
    → Memᴰ d pipelines
get_pipeline-mem name version d h =
    let (v, _, at) = get_pipeline-at name version d h in (pipeline_at-mem name v d at).0

pub get_pipeline-well_ordered :
    (name : String) (version : Option String) (d : PipelineDefinition)
    → get_pipeline name version ≡ ok d
    → well_ordered [] d.stages ≡ true
get_pipeline-well_ordered name version d h =
    (All-mem IsSound pipelines (get_pipeline-mem name version d h) pipelines-IsSound).0

earlier :
    (seen : List String) (before : List PipelineStageDefinition) (stage : PipelineStageDefinition)
    (after : List PipelineStageDefinition) (dep : String)
    → well_ordered seen (before ++ stage ∷ after) ≡ true
    → contains dep stage.depends_on ≡ true
    → (contains dep seen ≡ true) ⊎ (contains dep (stage_names before) ≡ true)
unfolding well_ordered
earlier seen [] stage after dep w c =
    inl (is_subset-contains stage.depends_on seen dep (ground arith) c)
earlier seen (b ∷ before) stage after dep w c =
    later (earlier (b.name ∷ seen) before stage after dep (ground arith) c)
  where
    later :
        (contains dep (b.name ∷ seen) ≡ true) ⊎ (contains dep (stage_names before) ≡ true)
        → (contains dep seen ≡ true) ⊎ (contains dep (stage_names (b ∷ before)) ≡ true)
    later h = unfold contains in ground arith

-- In every pipeline that get_pipeline returns, whatever the name and version asked for, a stage
-- comes after each stage that it depends on: the dependency's name is among the earlier stages'.
pub get_pipeline_ordered :
    (name : String) (version : Option String) (d : PipelineDefinition)
    (before after : List PipelineStageDefinition) (stage : PipelineStageDefinition) (dep : String)
    → get_pipeline name version ≡ ok d
    → d.stages ≡ before ++ stage ∷ after
    → contains dep stage.depends_on ≡ true
    → contains dep (stage_names before) ≡ true
get_pipeline_ordered name version d before after stage dep h e c = elim found [
  | inl none_before ↦ unfold contains in cc
  | inr already ↦ already
]
  where
    found : (contains dep [] ≡ true) ⊎ (contains dep (stage_names before) ≡ true)
    found =
        earlier [] before stage after dep
          (subst (λ stages. well_ordered [] stages ≡ true) e
            (get_pipeline-well_ordered name version d h))
          c
