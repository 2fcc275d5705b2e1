-- ===== src/RecipeAgent/ReadingTests.antt =====
-- A file of an agent, read and loaded.
use pi_recipes.Prelude.{
  ℕ, ◌-◌, Text, codes, text_eq, true, List, [], ◌∷◌, Option, none, some, ◌≡◌, refl, sym, ap, ◌∙◌,
  arith, if◌then◌else◌,
}
use pi_recipes.Prelude.Maps.{lookup, insert}
use pi_recipes.Prelude.Results.{returns}
use pi_recipes.Prelude.Texts.{is_lower, has, trim}
use pi_recipes.Json.{Json, Number, obj, str, num, Fields, end, field, get, put, keys}
use pi_recipes.RecipeModel.Policy.{merge_stream_options, or_end}
use pi_recipes.RecipeAgent.{read_recipe_agent_source, read_recipe_agent_sources}
use pi_recipes.RecipeAgent.Definition.{ParsedRecipeAgentDefinition}
use pi_recipes.RecipeAgent.Resolution.{definitions_from_sources, raw_definitions_of, resolve_root}
use pi_recipes.RecipeAgent.Chains.{root}
use pi_recipes.RecipeAgent.Loading.{Chain, Chain-definitions_from_sources}
use pi_recipes.RecipeAgent.HostOwned.{loaded_options_kept, options_of}

abbrev to_upper : ℕ → ℕ
to_upper c = if is_lower c then c - 32 else c

abbrev agent_file : Fields
agent_file = field (codes "name") (str (codes "base")) (
    field (codes "ai")
      (obj (
        field (codes "options") (obj (field (codes "max_tokens") (num (Number.natural 5)) end))
          end))
      end)

abbrev base_source : ParsedRecipeAgentDefinition
base_source = record {
  name = codes "base";
  from = none;
  description = none;
  model_config = some (record {
    name = none;
    thinking_level = none;
    stream_options = some (field (codes "maxTokens") (num (Number.natural 5)) end);
    openrouter = none;
    anthropic = none;
    vercel_ai_gateway = none;
  });
  session_config = none;
  tools = none;
  mcp = none;
  skills = none;
  subagents = none;
  system_instructions = none;
  declared_fields = codes "ai" ∷ [];
}

reads : read_recipe_agent_source to_upper (λ s. s) agent_file ≡ returns base_source
unfolding read_recipe_agent_source text_eq pi_recipes.RecipeAgent.check_agent_keys
    pi_recipes.RecipeAgent.check_agent_fields pi_recipes.RecipeAgent.invalid_agent_field
    pi_recipes.RecipeAgent.name_error pi_recipes.RecipeAgent.kebab_rest
    pi_recipes.RecipeAgent.list_error pi_recipes.RecipeAgent.reserved_error
    pi_recipes.RecipeAgent.instructions_error pi_recipes.RecipeAgent.parse_agent_model
    pi_recipes.RecipeAgent.parse_system_instructions pi_recipes.RecipeAgent.Mcp.parse_mcp
    pi_recipes.Json.keys pi_recipes.Json.get pi_recipes.Json.put pi_recipes.Prelude.Texts.has
    pi_recipes.Prelude.Texts.trim pi_recipes.Prelude.Texts.given_trimmed
    pi_recipes.Prelude.Texts.trim_start pi_recipes.RecipeModel.parse_recipe_agent_ai_config
    pi_recipes.RecipeModel.Values.expect_object pi_recipes.RecipeModel.parse_ai_object
    pi_recipes.RecipeModel.Values.assert_known_keys pi_recipes.RecipeModel.Values.optional_string
    pi_recipes.RecipeModel.Values.parse_thinking_level
    pi_recipes.RecipeModel.Providers.parse_providers pi_recipes.RecipeModel.camel
    pi_recipes.RecipeModel.is_snake_case pi_recipes.RecipeModel.normalize_entries
    pi_recipes.RecipeModel.normalize_snake_case_object pi_recipes.RecipeModel.parse_options
    pi_recipes.RecipeModel.snake_rest pi_recipes.RecipeModel.snake_to_camel
    pi_recipes.RecipeSession.parse_recipe_agent_session_config
reads = refl

reads_sources : read_recipe_agent_sources to_upper (λ s. s) (agent_file ∷ []) ≡ base_source ∷ []
unfolding read_recipe_agent_sources
reads_sources = rw reads refl

base-Chain : Chain (base_source ∷ []) (codes "base") 1 (resolve_root base_source)
unfolding raw_definitions_of lookup insert text_eq
base-Chain = root (codes "base") base_source refl refl

is_loaded :
    lookup
      (codes "base")
      (definitions_from_sources (read_recipe_agent_sources to_upper (λ s. s) (agent_file ∷ [])))
    ≡ some (resolve_root base_source)
is_loaded =
    ap (λ sources. lookup (codes "base") (definitions_from_sources sources)) reads_sources
    ∙ Chain-definitions_from_sources (base_source ∷ []) (codes "base") 1 (resolve_root base_source)
        base-Chain (omega arith)

abbrev host_options : Option Fields
host_options = some (field (codes "apiKey") (str (codes "k")) end)

loaded_options_kept_example :
    get (codes "apiKey") (
      or_end (
        merge_stream_options host_options
          (options_of to_upper (resolve_root base_source).model_config)))
    ≡ get (codes "apiKey") (or_end host_options)
unfolding text_eq
loaded_options_kept_example =
    loaded_options_kept to_upper (λ s. s) (agent_file ∷ []) (codes "base")
      (resolve_root base_source) host_options (codes "apiKey") is_loaded refl
