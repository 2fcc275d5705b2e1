-- ===== src/RecipeAgent/Specs.antt =====
-- The findings on the names and the model references of agents (src/recipe-agent.ts).
use pi_recipes.Prelude.{
  Text, text_eq, Bool, false, not, ◌||◌, List, [], ◌∷◌, ◌++◌, Option, none, some, any, keep, count,
  map, if◌then◌else◌, ◌==◌, ltb,
}
use pi_recipes.Prelude.Texts.{split_at, is_space, distinct_texts}
use pi_recipes.RecipeAgent.Definition.{ParsedRecipeAgentDefinition, model_projection}

pub data SpecFinding : Type 0 where
  invalid_model_name : Text → Text → SpecFinding
  name_declared_twice : Text → SpecFinding

abbrev pub is_valid_split : Option (Text × Text) → Bool
is_valid_split none = false
is_valid_split (some ([], model_id)) = false
is_valid_split (some (p ∷ provider, [])) = false
is_valid_split (some (p ∷ provider, c ∷ model_id)) =
    not (any (λ d. is_space d || d == b':') (p ∷ provider))

unfoldable pub is_valid_recipe_model_spec : Text → Bool
is_valid_recipe_model_spec spec = is_valid_split (split_at b'/' spec)

-- source.definition.model?.name
abbrev pub name_of_projection : Option (Option Text × Option Text) → Option Text
name_of_projection none = none
name_of_projection (some (name, level)) = name

abbrev pub model_name : ParsedRecipeAgentDefinition → Option Text
model_name source = name_of_projection (model_projection source.model_config)

abbrev pub spec_findings : Text → Option Text → List SpecFinding
spec_findings name none = []
spec_findings name (some spec) =
    if is_valid_recipe_model_spec spec then [] else invalid_model_name name spec ∷ []

unfoldable pub validate_recipe_agent_model_specs :
    List ParsedRecipeAgentDefinition → List SpecFinding
validate_recipe_agent_model_specs [] = []
validate_recipe_agent_model_specs (source ∷ rest) =
    spec_findings source.name (model_name source) ++ validate_recipe_agent_model_specs rest

pub validate_recipe_agent_names : List ParsedRecipeAgentDefinition → List SpecFinding
validate_recipe_agent_names sources =
    let names = map (λ source. source.name) sources in
    map name_declared_twice
      (keep (λ name. ltb 1 (count (text_eq name) names)) (distinct_texts [] names))
