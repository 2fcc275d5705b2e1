-- ===== src/RecipeModel/Config.antt =====
-- The configuration, and the errors of its parsing (src/recipe-model.ts). An error keeps what its
-- message names, without the context that stands before it.
use pi_recipes.Prelude.{ℕ, Text, Bool, true, false, List, Option}
use pi_recipes.Json.{Json, Fields, end, field}

pub data ModelPrefix : Type 0 where
  ai model : ModelPrefix

pub data ModelError : Type 0 where
  expected_object expected_string expected_integer expected_string_array : Text → ModelError
  expected_number : Text → ℕ → ModelError
  unsupported_value : Text → ModelError
  unsupported_keys : Text → List Text → ModelError
  non_snake_case_key host_owned_option : Text → ModelError
  host_owned_routing : List Text → ModelError

pub record RecipeAgentModelAnthropicOptions : Type 0 where
  pub betas : Option (List Text)
  pub context_management : Option Json

-- The sections that `providers` gives.
pub record ProviderConfig : Type 0 where
  pub openrouter : Option Fields
  pub anthropic : Option RecipeAgentModelAnthropicOptions
  pub vercel_ai_gateway : Option Fields

pub record RecipeAgentModelConfig : Type 0 where
  pub name : Option Text
  pub thinking_level : Option Text
  pub stream_options : Option Fields
  pub openrouter : Option Fields
  pub anthropic : Option RecipeAgentModelAnthropicOptions
  pub vercel_ai_gateway : Option Fields

-- Object.keys(value).length > 0
abbrev pub has_keys : Fields → Bool
has_keys end = false
has_keys (field k v o) = true
