-- ===== src/ModelBinding/Tests.antt =====
-- A source that names a model.
use pi_recipes.Prelude.{codes, [], ◌∷◌, none, some, All, ◌≡◌, refl}
use pi_recipes.Prelude.Texts.{split_at}
use pi_recipes.ModelBinding.Specs.{Parses, model_specs-Parses}
use pi_recipes.RecipeAgent.Definition.{ParsedRecipeAgentDefinition, model_projection}
use pi_recipes.RecipeAgent.Specs.{
  model_name, validate_recipe_agent_model_specs, is_valid_recipe_model_spec,
}

abbrev agent : ParsedRecipeAgentDefinition
agent = record {
  name = codes "reader";
  from = none;
  description = none;
  model_config = some (record {
    name = some (codes "openai/gpt-5");
    thinking_level = none;
    stream_options = none;
    openrouter = none;
    anthropic = none;
    vercel_ai_gateway = none;
  });
  session_config = none;
  tools = none;
  mcp = none;
  skills = none;
  subagents = none;
  system_instructions = none;
  declared_fields = [];
}

names_are_valid : validate_recipe_agent_model_specs (agent ∷ []) ≡ []
unfolding validate_recipe_agent_model_specs model_projection is_valid_recipe_model_spec split_at
names_are_valid = refl

model_specs-Parses_example : All (λ source. Parses (model_name source)) (agent ∷ [])
model_specs-Parses_example = model_specs-Parses (agent ∷ []) names_are_valid
