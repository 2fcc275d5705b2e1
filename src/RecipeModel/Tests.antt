-- ===== src/RecipeModel/Tests.antt =====
-- An agent's block with options and routing, and a legacy block laid over it.
use pi_recipes.Prelude.{
  ℕ, ◌-◌, Text, codes, text_eq, true, List, [], ◌∷◌, Option, none, some, ◌≡◌, refl, if◌then◌else◌,
  any,
}
use pi_recipes.Prelude.Results.{returns}
use pi_recipes.Prelude.Texts.{is_lower, trim, truthy}
use pi_recipes.Json.{Json, Number, obj, str, num, Fields, end, field, get, put, keys, or_value}
use pi_recipes.RecipeModel.Config.{RecipeAgentModelConfig}
use pi_recipes.RecipeModel.Policy.{Model, merge_configs, or_end, apply_recipe_agent_payload_policy}
use pi_recipes.RecipeModel.{parse_recipe_agent_ai_config, parse_recipe_agent_model_config}
use pi_recipes.RecipeModel.HostOwned.{
  FromRecipe, from_ai, from_model, merged, byok_kept, gateway_of,
}
use pi_recipes.RecipeModel.Merging.{merge_configs_by_key}

abbrev upper : ℕ → ℕ
upper c = if is_lower c then c - 32 else c

abbrev gateway_routing : Fields
gateway_routing = field (codes "only") (str (codes "openai")) end

abbrev ai_block : Json
ai_block = obj (
    field (codes "model") (str (codes "openai/gpt")) (
      field (codes "options") (obj (field (codes "max_tokens") (num (Number.natural 5)) end)) (
        field (codes "providers")
          (obj (
            field (codes "vercel_ai_gateway")
              (obj (field (codes "routing") (obj gateway_routing) end)) end))
          end)))

abbrev model_block : Json
model_block = obj (field (codes "max_tokens") (num (Number.natural 9)) end)

abbrev base : RecipeAgentModelConfig
base = record {
  name = some (codes "openai/gpt");
  thinking_level = none;
  stream_options = some (field (codes "maxTokens") (num (Number.natural 5)) end);
  openrouter = none;
  anthropic = none;
  vercel_ai_gateway = some gateway_routing;
}

abbrev overlay : RecipeAgentModelConfig
overlay = record {
  name = none;
  thinking_level = none;
  stream_options = some (field (codes "maxTokens") (num (Number.natural 9)) end);
  openrouter = none;
  anthropic = none;
  vercel_ai_gateway = none;
}

ai_block-base : parse_recipe_agent_ai_config upper (some ai_block) ≡ returns (some base)
unfolding parse_recipe_agent_ai_config text_eq pi_recipes.RecipeModel.Values.expect_object
    pi_recipes.RecipeModel.parse_ai_object pi_recipes.RecipeModel.Values.assert_known_keys keys
    pi_recipes.RecipeModel.Values.optional_string get
    pi_recipes.RecipeModel.Values.parse_thinking_level pi_recipes.RecipeModel.parse_options
    pi_recipes.RecipeModel.normalize_snake_case_object pi_recipes.RecipeModel.normalize_entries
    pi_recipes.RecipeModel.is_snake_case pi_recipes.RecipeModel.snake_rest
    pi_recipes.RecipeModel.snake_to_camel pi_recipes.RecipeModel.camel
    pi_recipes.RecipeModel.Providers.parse_providers
    pi_recipes.RecipeModel.Providers.parse_provider_object
    pi_recipes.RecipeModel.Providers.parse_openrouter_provider put
    pi_recipes.Prelude.Texts.given_trimmed trim pi_recipes.Prelude.Texts.trim_start
    pi_recipes.RecipeModel.Providers.check_routing pi_recipes.RecipeModel.Providers.optional_object
    pi_recipes.RecipeModel.Providers.parse_anthropic pi_recipes.RecipeModel.Providers.parse_gateway
    pi_recipes.RecipeModel.Providers.parse_openrouter_routing
    pi_recipes.RecipeModel.Providers.parse_vercel_ai_gateway
    pi_recipes.RecipeModel.Providers.parse_vercel_ai_gateway_routing
ai_block-base = refl

model_block-overlay : parse_recipe_agent_model_config (some model_block) ≡ returns (some overlay)
unfolding parse_recipe_agent_model_config text_eq pi_recipes.RecipeModel.Values.expect_object
    pi_recipes.RecipeModel.parse_model_object pi_recipes.RecipeModel.Values.assert_known_keys keys
    pi_recipes.RecipeModel.Values.parse_thinking_level get
    pi_recipes.RecipeModel.parse_stream_options pi_recipes.RecipeModel.Values.optional_string
    pi_recipes.RecipeModel.Values.optional_number pi_recipes.RecipeModel.Values.optional_integer
    pi_recipes.RecipeModel.Values.is_at_least pi_recipes.RecipeModel.Providers.parse_providers
model_block-overlay = refl

abbrev layered : FromRecipe upper (merge_configs base overlay)
layered =
    merged base overlay (from_ai ai_block base ai_block-base)
      (from_model model_block overlay model_block-overlay)

abbrev gateway_model : Model
gateway_model = record {
  provider = codes "vercel-ai-gateway";
  api = codes "openai-completions";
  headers = none;
  compat = none;
}

abbrev host_payload : Json
host_payload = obj (
    field (codes "providerOptions")
      (obj (field (codes "gateway") (obj (field (codes "byok") (str (codes "k")) end)) end)) end)

byok_kept_example :
    get (codes "byok") (
      gateway_of (
        apply_recipe_agent_payload_policy host_payload gateway_model
          (some (merge_configs base overlay))))
    ≡ get (codes "byok") (gateway_of host_payload)
unfolding text_eq
byok_kept_example =
    byok_kept upper (merge_configs base overlay) host_payload gateway_model (codes "byok") layered
      refl

abbrev merged_layers : RecipeAgentModelConfig
merged_layers = merge_configs base overlay

merge_configs_by_key_example :
    (merged_layers.name ≡ base.name)
    × (get (codes "maxTokens") (or_end merged_layers.stream_options)
        ≡ or_value
            (get (codes "maxTokens") (or_end overlay.stream_options))
            (get (codes "maxTokens") (or_end base.stream_options)))
    × (get (codes "maxTokens") (or_end merged_layers.vercel_ai_gateway)
        ≡ or_value
            (get (codes "maxTokens") (or_end overlay.vercel_ai_gateway))
            (get (codes "maxTokens") (or_end base.vercel_ai_gateway)))
unfolding get
merge_configs_by_key_example =
    merge_configs_by_key base overlay (codes "maxTokens") refl (refl, tt) tt
