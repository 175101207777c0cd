-- ===== src/Domain/Catalog.antt =====
-- app/domain/pipelines.py: the stages of each pipeline, the versions, and their lookup.
use Prim.Native.String.{compare as text_compare}
use text.Mathlib.Text.{is_lt}
use media_engine.Prelude.{
  String, Bool, true, false, Option, none, some, List, [], ◌∷◌, ◌++◌, map, if◌then◌else◌, ◌=ₛ◌,
  ◌&&◌, find, order_by, Result, ok, ◌>>=◌, or_raise, Exception,
}
use media_engine.Domain.Pipelines.{
  PipelineArtifactDefinition, PipelineProviderSelectionDefinition, Capabilities,
  PipelineStageDefinition, transcode_options, media_preparation_options, understand_options,
  understand_v2_options, PipelineDefinition, option_value,
}

-- `PipelineArtifactDefinition(type)`, required and of schema version 1.
abbrev artifact : String → PipelineArtifactDefinition
artifact type = record { artifact_type = type; required = true; schema_version = "1" }

abbrev ffmpeg_capabilities : Capabilities
ffmpeg_capabilities = ("processors", "ffmpeg" ∷ []) ∷ []

abbrev local_capabilities : Capabilities
local_capabilities = ("processors", "ffmpeg" ∷ "tesseract" ∷ []) ∷ []

abbrev openai_capabilities : Capabilities
openai_capabilities = ("providers", "openai" ∷ []) ∷ []

abbrev no_capabilities : Capabilities
no_capabilities = []

abbrev pub understand_providers : List String
understand_providers = "openai" ∷ "xai" ∷ []

-- `_provider_selection`, at the two option names that the prefix gives.
abbrev provider_selection : String → String → Option PipelineProviderSelectionDefinition
provider_selection provider_option model_option = some (record {
  provider_option = provider_option;
  model_option = model_option;
  supported_providers = understand_providers;
})

abbrev stage :
    String
    → String
    → Capabilities
    → Option PipelineProviderSelectionDefinition
    → List String
    → List PipelineArtifactDefinition
    → PipelineStageDefinition
stage name processor required_capabilities provider_selection depends_on outputs = record {
  name = name;
  processor = processor;
  required_capabilities = required_capabilities;
  provider_selection = provider_selection;
  depends_on = depends_on;
  outputs = outputs;
}

abbrev pub media_foundation_stages : List PipelineStageDefinition
media_foundation_stages =
    stage "probe" "probe" ffmpeg_capabilities none [] (artifact "media_metadata" ∷ [])
    ∷ stage "audio_extract" "audio_extract" ffmpeg_capabilities none ("probe" ∷ []) (
        artifact "audio_metadata"
        ∷ record { artifact_type = "audio"; required = false; schema_version = "1" }
        ∷ [])
    ∷ stage "subtitle_extract" "subtitle_extract" ffmpeg_capabilities none ("probe" ∷ [])
        (artifact "subtitles" ∷ [])
    ∷ stage "scene_detect" "scene_detect" ffmpeg_capabilities none ("probe" ∷ [])
        (artifact "scenes" ∷ [])
    ∷ []

abbrev pub media_preparation_stages : List PipelineStageDefinition
media_preparation_stages =
    media_foundation_stages
    ++ stage "keyframe_extract" "keyframe_extract" ffmpeg_capabilities none ("scene_detect" ∷ [])
        (artifact "keyframes" ∷ artifact "keyframe_index" ∷ [])
      ∷ stage "ocr" "ocr" local_capabilities none ("keyframe_extract" ∷ []) (artifact "ocr" ∷ [])
      ∷ []

abbrev pub understand_stages : List PipelineStageDefinition
understand_stages =
    media_preparation_stages
    ++ stage "transcribe" "openai_transcribe" openai_capabilities none ("audio_extract" ∷ [])
        (artifact "transcript" ∷ [])
      ∷ stage "visual_describe" "openai_visual_describe" openai_capabilities none
          ("keyframe_extract" ∷ []) (artifact "visual_descriptions" ∷ [])
      ∷ stage "summarize" "openai_summarize" openai_capabilities none
          ("probe" ∷ "subtitle_extract" ∷ "scene_detect" ∷ "ocr" ∷ "transcribe" ∷ "visual_describe"
            ∷ [])
          (artifact "agent_document" ∷ [])
      ∷ []

abbrev pub understand_v2_stages : List PipelineStageDefinition
understand_v2_stages =
    media_foundation_stages
    ++ stage "coarse_keyframe_extract" "coarse_keyframe_extract" ffmpeg_capabilities none
        ("scene_detect" ∷ []) (artifact "coarse_keyframes" ∷ artifact "coarse_keyframe_index" ∷ [])
      ∷ stage "coarse_ocr" "coarse_ocr" local_capabilities none ("coarse_keyframe_extract" ∷ [])
          (artifact "coarse_ocr" ∷ [])
      ∷ stage "transcribe" "ai_transcribe" no_capabilities
          (provider_selection "transcription_provider" "transcription_model") ("audio_extract" ∷ [])
          (artifact "transcript" ∷ [])
      ∷ stage "content_plan" "ai_content_plan" no_capabilities
          (provider_selection "planning_provider" "planning_model")
          ("probe" ∷ "subtitle_extract" ∷ "scene_detect" ∷ "coarse_ocr" ∷ "transcribe" ∷ [])
          (artifact "content_plan" ∷ [])
      ∷ stage "keyframe_extract" "adaptive_keyframe_extract" ffmpeg_capabilities none
          ("scene_detect" ∷ "content_plan" ∷ [])
          (artifact "keyframes" ∷ artifact "keyframe_index" ∷ [])
      ∷ stage "ocr" "ocr" local_capabilities none ("keyframe_extract" ∷ []) (artifact "ocr" ∷ [])
      ∷ stage "visual_describe" "ai_visual_describe" no_capabilities
          (provider_selection "vision_provider" "vision_model") ("keyframe_extract" ∷ [])
          (artifact "visual_descriptions" ∷ [])
      ∷ stage "summarize" "ai_summarize_v2" no_capabilities
          (provider_selection "summary_provider" "summary_model")
          ("probe" ∷ "subtitle_extract" ∷ "scene_detect" ∷ "content_plan" ∷ "keyframe_extract"
            ∷ "ocr" ∷ "transcribe" ∷ "visual_describe" ∷ [])
          (record { artifact_type = "agent_document"; required = true; schema_version = "2" } ∷ [])
      ∷ []

abbrev pub transcode_stages : List PipelineStageDefinition
transcode_stages =
    stage "transcode" "transcode" (("pipelines", "transcode" ∷ []) ∷ []) none []
      (artifact "transcoded_media" ∷ [])
    ∷ []

abbrev pub transcode_pipeline : PipelineDefinition
transcode_pipeline = record {
  name = "transcode";
  version = "1";
  schema_version = "1";
  processor_versions = ("transcode-contract", "1") ∷ [];
  options_model = transcode_options;
  stages = transcode_stages;
}

abbrev local_versions : List (String × String)
local_versions =
    ("media-probe", "1")
    ∷ ("audio-extract", "1")
    ∷ ("subtitle-extract", "1")
    ∷ ("scene-detect", "1")
    ∷ ("keyframe-extract", "1")
    ∷ ("tesseract-ocr", "1")
    ∷ []

abbrev pub ai_prepare_pipeline : PipelineDefinition
ai_prepare_pipeline = record {
  name = "ai_prepare";
  version = "1";
  schema_version = "1";
  processor_versions = local_versions;
  options_model = media_preparation_options;
  stages = media_preparation_stages;
}

abbrev pub understand_pipeline : PipelineDefinition
understand_pipeline = record {
  name = "understand";
  version = "1";
  schema_version = "1";
  processor_versions =
      local_versions
      ++ ("openai-transcription", "1") ∷ ("openai-vision", "1") ∷ ("agent-document", "1") ∷ [];
  options_model = understand_options;
  stages = understand_stages;
}

abbrev pub understand_v2_pipeline : PipelineDefinition
understand_v2_pipeline = record {
  name = "understand";
  version = "2";
  schema_version = "2";
  processor_versions =
      ("media-probe", "1")
      ∷ ("audio-extract", "1")
      ∷ ("subtitle-extract", "1")
      ∷ ("scene-detect", "1")
      ∷ ("coarse-keyframe-extract", "1")
      ∷ ("tesseract-ocr", "1")
      ∷ ("openai-transcription", "1")
      ∷ ("content-plan", "1")
      ∷ ("adaptive-keyframe-extract", "1")
      ∷ ("openai-vision", "1")
      ∷ ("agent-document", "2")
      ∷ [];
  options_model = understand_v2_options;
  stages = understand_v2_stages;
}

-- `_PIPELINES`; each entry's key is the pair of its name and its version.
abbrev pub pipelines : List PipelineDefinition
pipelines =
    transcode_pipeline ∷ ai_prepare_pipeline ∷ understand_pipeline ∷ understand_v2_pipeline ∷ []

abbrev pub latest_pipeline_versions : List (String × String)
latest_pipeline_versions = ("transcode", "1") ∷ ("ai_prepare", "1") ∷ ("understand", "2") ∷ []

-- `version or latest.get(name)`: an empty version counts as none.
abbrev pub resolve_version : String → Option String → Option String
resolve_version name none = option_value latest_pipeline_versions name
resolve_version name (some version) =
    if version =ₛ "" then option_value latest_pipeline_versions name else some version

abbrev pub has_key : String → String → PipelineDefinition → Bool
has_key name version pipeline = pipeline.name =ₛ name && pipeline.version =ₛ version

-- `_PIPELINES[(name, version)]`
unfoldable pub pipeline_at : String → String → Option PipelineDefinition
unfolding find
pipeline_at name version = find (has_key name version) pipelines

unfoldable pub get_pipeline : String → Option String → Result PipelineDefinition
unfolding option_value pipeline_at
get_pipeline name version =
    or_raise (resolve_version name version) Exception.unsupported_pipeline >>= λ resolved_version.
    or_raise (pipeline_at name resolved_version) Exception.unsupported_pipeline

get_pipelines : List String → Result (List PipelineDefinition)
get_pipelines [] = ok []
get_pipelines (name ∷ names) =
    get_pipeline name none >>= λ pipeline. get_pipelines names >>= λ rest. ok (pipeline ∷ rest)

unfoldable pub list_pipelines : Result (List PipelineDefinition)
unfolding get_pipelines get_pipeline order_by
list_pipelines =
    get_pipelines
      (order_by (λ p q. is_lt (text_compare p q)) (map (λ entry. entry.0) latest_pipeline_versions))

pub record PipelineKeyInput : Type 0 where
  pub pipeline_name : String
  pub pipeline_version : String
  pub schema_version : String
  pub processor_versions : List (String × String)
  pub options : List (String × String)

pub pipeline_key_input : PipelineDefinition → List (String × String) → PipelineKeyInput
pipeline_key_input definition options = record {
  pipeline_name = definition.name;
  pipeline_version = definition.version;
  schema_version = definition.schema_version;
  processor_versions = definition.processor_versions;
  options = options;
}
