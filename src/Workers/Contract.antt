-- ===== src/Workers/Contract.antt =====
-- app/services/workers.py, WorkerService._validate_artifact_contract.
use media_engine.Prelude.{
  ℕ, String, Bool, false, Option, none, some, List, [], ◌∷◌, map, not, ◌=ₛ◌, if◌then◌else◌, all,
  is_subset, all_distinct, Exception, Result, ◌>>=◌, ◌>>◌, raise_if,
}
use media_engine.Domain.Pipelines.{
  PipelineArtifactDefinition, PipelineStageDefinition, PipelineDefinition, allowed_artifact_types,
  required_artifact_types, stage_named,
}
use media_engine.Models.{StageRun}

pub record ArtifactCompletion : Type 0 where
  pub sha256 : String
  pub size_bytes : ℕ
  pub media_type : Option String
  pub artifact_type : String
  pub format : String
  pub schema_version : String

abbrev pub reported_types : List ArtifactCompletion → List String
reported_types = map (λ artifact. artifact.artifact_type)

-- `{output.artifact_type: output.schema_version …}[artifact_type]`: a later output wins.
unfoldable pub expected_version : String → List PipelineArtifactDefinition → Option String
expected_version type [] = none
expected_version type (output ∷ outputs) = elim (expected_version type outputs) [
  | some version ↦ some version
  | none ↦ if output.artifact_type =ₛ type then some output.schema_version else none
]

-- `artifact.schema_version != expected_versions[artifact.artifact_type]` does not hold; a type
-- without an expected version, a KeyError in the source, has been rejected before.
abbrev version_matches : Option String → String → Bool
version_matches none version = false
version_matches (some expected) version = version =ₛ expected

unfoldable pub versions_match : PipelineStageDefinition → List ArtifactCompletion → Bool
unfolding expected_version all
versions_match definition = all (λ artifact.
    version_matches (expected_version artifact.artifact_type definition.outputs)
      artifact.schema_version)

unfoldable pub meets_contract :
    PipelineStageDefinition → List ArtifactCompletion → Result (Unit {0})
unfolding versions_match all_distinct is_subset
meets_contract definition artifacts =
    raise_if (not (all_distinct (reported_types artifacts))) Exception.artifact_rejected
    >> (raise_if (not (is_subset (reported_types artifacts) (allowed_artifact_types definition)))
          Exception.artifact_rejected
        >> (raise_if
              (not (is_subset (required_artifact_types definition) (reported_types artifacts)))
              Exception.artifact_rejected
            >> raise_if (not (versions_match definition artifacts)) Exception.artifact_rejected))

unfoldable pub validate_artifact_contract :
    PipelineDefinition → StageRun → List ArtifactCompletion → Result (Unit {0})
unfolding meets_contract stage_named
validate_artifact_contract pipeline stage artifacts =
    stage_named pipeline stage.stage_name >>= λ definition. meets_contract definition artifacts
