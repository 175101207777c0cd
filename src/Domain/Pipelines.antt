-- ===== src/Domain/Pipelines.antt =====
-- app/domain/pipelines.py: what a pipeline definition is, its properties, and the capabilities
-- that one of its stages asks of a worker.
use Prim.Native.String.{compare as text_compare}
use text.Mathlib.Text.{is_lt}
use media_engine.Prelude.{
  String, Bool, Option, none, some, List, [], ◌∷◌, ◌++◌, map, if◌then◌else◌, ◌=ₛ◌, contains, find,
  select, order_by, Result, ok, ◌>>=◌, or_raise, Exception,
}

pub record PipelineArtifactDefinition : Type 0 where
  pub artifact_type : String
  pub required : Bool
  pub schema_version : String

pub record PipelineProviderSelectionDefinition : Type 0 where
  pub provider_option : String
  pub model_option : String
  pub supported_providers : List String

-- A JSON mapping from a capability's kind to the values that are wanted.
abbrev pub Capabilities : Type 0
Capabilities = List (String × List String)

pub record PipelineStageDefinition : Type 0 where
  pub name : String
  pub processor : String
  pub required_capabilities : Capabilities
  pub provider_selection : Option PipelineProviderSelectionDefinition
  pub depends_on : List String
  pub outputs : List PipelineArtifactDefinition

-- The Pydantic class that a pipeline's options are validated by.
pub data OptionsModel : Type 0 where
  transcode_options media_preparation_options understand_options understand_v2_options :
      OptionsModel

pub record PipelineDefinition : Type 0 where
  pub name : String
  pub version : String
  pub schema_version : String
  pub processor_versions : List (String × String)
  pub options_model : OptionsModel
  pub stages : List PipelineStageDefinition

abbrev pub output_types : List PipelineArtifactDefinition → List String
output_types = map (λ output. output.artifact_type)

abbrev pub allowed_artifact_types : PipelineStageDefinition → List String
allowed_artifact_types stage = output_types stage.outputs

abbrev pub required_artifact_types : PipelineStageDefinition → List String
required_artifact_types stage = output_types (select (λ output. output.required) stage.outputs)

-- `PipelineDefinition.stage`
unfoldable pub stage_named : PipelineDefinition → String → Result PipelineStageDefinition
unfolding find
stage_named pipeline name =
    or_raise (find (λ stage. stage.name =ₛ name) pipeline.stages) Exception.unsupported_pipeline

-- The two loops of `required_artifacts`.
unfoldable pub required_artifacts_of : List PipelineStageDefinition → List String
required_artifacts_of [] = []
required_artifacts_of (stage ∷ stages) =
    required_artifact_types stage ++ required_artifacts_of stages

abbrev pub required_artifacts : PipelineDefinition → List String
required_artifacts pipeline = required_artifacts_of pipeline.stages

-- `mapping.get(key, default)`
unfoldable pub get_or : {A : Type 0} → List (String × A) → String → A → A
get_or [] key default = default
get_or ((k, v) ∷ rest) key default = if k =ₛ key then v else get_or rest key default

-- `mapping[key] = value`
unfoldable pub set_key : {A : Type 0} → String → A → List (String × A) → List (String × A)
set_key key value [] = (key, value) ∷ []
set_key key value ((k, v) ∷ rest) =
    if k =ₛ key then (key, value) ∷ rest else (k, v) ∷ set_key key value rest

-- A set of texts as a list: `providers.update(values)`.
unfoldable pub add_all : List String → List String → List String
unfolding contains
add_all [] set = set
add_all (value ∷ values) set =
    let rest = add_all values set in if contains value rest then rest else value ∷ rest

abbrev selected_providers : Option PipelineProviderSelectionDefinition → List String
selected_providers none = []
selected_providers (some selection) = selection.supported_providers

unfoldable pub providers_of : List PipelineStageDefinition → List String
unfolding add_all get_or
providers_of [] = []
providers_of (stage ∷ stages) =
    add_all (get_or stage.required_capabilities "providers" [])
      (add_all (selected_providers stage.provider_selection) (providers_of stages))

unfoldable pub supported_providers : PipelineDefinition → List String
unfolding providers_of order_by
supported_providers pipeline =
    order_by (λ p q. is_lt (text_compare p q)) (providers_of pipeline.stages)

-- Validated options, in the part that stages read: each key with its text.
abbrev pub Options : Type 0
Options = List (String × String)

unfoldable pub option_value : Options → String → Option String
option_value [] key = none
option_value ((k, v) ∷ rest) key = if k =ₛ key then some v else option_value rest key

-- `options[key]` raises for a key that is not there.
abbrev select_provider :
    Option PipelineProviderSelectionDefinition → Options → Capabilities → Result Capabilities
select_provider none options capabilities = ok capabilities
select_provider (some selection) options capabilities =
    or_raise (option_value options selection.provider_option) Exception.key_error >>= λ provider.
    ok (set_key "providers" (provider ∷ []) capabilities)

unfoldable pub required_capabilities_for_stage :
    PipelineStageDefinition → Options → Result Capabilities
unfolding set_key option_value
required_capabilities_for_stage stage options =
    select_provider stage.provider_selection options stage.required_capabilities
