-- ===== src/Examples/Graphs.antt =====
-- The stage graphs at the latest understand pipeline.
use media_engine.Prelude.{true, none, ◌≡◌, refl, contains}
use media_engine.Domain.Catalog.{ai_prepare_pipeline, media_foundation_stages, get_pipeline}
use media_engine.Domain.Graphs.{stage_names, get_pipeline_ordered}

get_pipeline_ordered_example : contains "scene_detect" (stage_names media_foundation_stages) ≡ true
unfolding get_pipeline contains
get_pipeline_ordered_example =
    get_pipeline_ordered "ai_prepare" none ai_prepare_pipeline media_foundation_stages _ _
      "scene_detect" refl refl refl
