-- ===== src/Workers/Capabilities.antt =====
-- app/services/workers.py, capabilities_satisfy.
use media_engine.Prelude.{
  String, Bool, true, false, List, [], ◌∷◌, ◌&&◌, ◌=ₛ◌, if◌then◌else◌, is_subset,
}
use media_engine.Models.{CapabilityValue, values, CapabilityMap}

-- `actual.get(key, [])`
unfoldable pub capability : CapabilityMap → String → CapabilityValue
capability [] key = values []
capability ((k, v) ∷ rest) key = if k =ₛ key then v else capability rest key

-- Both are lists, and `set(required_values).issubset(actual_values)`.
unfoldable pub value_satisfies : CapabilityValue → CapabilityValue → Bool
value_satisfies (values actual) (values required) = is_subset required actual
value_satisfies _ _ = false

unfoldable pub capabilities_satisfy : CapabilityMap → CapabilityMap → Bool
capabilities_satisfy actual [] = true
capabilities_satisfy actual ((key, required) ∷ rest) =
    value_satisfies (capability actual key) required && capabilities_satisfy actual rest

-- `set(required_capabilities.get("providers", [])).issubset(enabled_providers)`; the value there is a
-- list, as required_capabilities_for_stage makes it.
unfoldable pub providers_enabled : CapabilityMap → List String → Bool
unfolding value_satisfies capability
providers_enabled required enabled =
    value_satisfies (values enabled) (capability required "providers")
