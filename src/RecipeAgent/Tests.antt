-- ===== src/RecipeAgent/Tests.antt =====
-- An agent, and one that inherits from it.
use pi_recipes.Prelude.{
  Text, codes, text_eq, true, false, List, [], ◌∷◌, Option, none, some, ◌≡◌, ◌↔◌, refl, arith, ℕ,
  ◌≤◌, zero, suc,
}
use pi_recipes.Prelude.Texts.{has, trim, truthy}
use pi_recipes.Prelude.Maps.{lookup, insert}
use pi_recipes.McpPolicy.{ToolSelection, mcp_selection_allows_tool, normalize_mcp_server_id}
use pi_recipes.RecipeModel.Config.{RecipeAgentModelConfig}
use pi_recipes.RecipePackage.Selection.{RecipePackageMcpServer, is_valid_recipe_mcp_tool_selection}
use pi_recipes.RecipeAgent.Definition.{
  RecipeAgentDefinition, ParsedRecipeAgentDefinition, RecipeAgentMcp, RecipeAgentMcpServer,
  model_projection,
}
use pi_recipes.RecipeAgent.Resolution.{
  definitions_from_sources, raw_definitions_of, max_inheritance_depth, resolve_root, resolve_over,
  merge_mcp,
}
use pi_recipes.RecipeAgent.Chains.{Resolves, root, over}
use pi_recipes.RecipeAgent.Loading.{
  Chain, Chain-definitions_from_sources, definitions_from_sources-Chain,
}
use pi_recipes.RecipeAgent.Agreement.{no_finding_iff}
use pi_recipes.RecipeAgent.Granting.{inheritance_finding-loaded, validated_within_package}
use pi_recipes.RecipeAgent.Validation.{
  inheritance_finding, resolved_mcp, package_servers, validate_resolved_recipe_agent_source,
  raw_mcp_invalid, servers_of,
}

abbrev model_config : RecipeAgentModelConfig
model_config = record {
  name = some (codes "openai/gpt");
  thinking_level = none;
  stream_options = none;
  openrouter = none;
  anthropic = none;
  vercel_ai_gateway = none;
}

abbrev search_only : ToolSelection
search_only = record { include = some (codes "search" ∷ []); exclude = none }

abbrev server : RecipeAgentMcpServer
server = record { tools = search_only; defer = none; eager = none }

abbrev mcp : RecipeAgentMcp
mcp = record { mode = none; servers = (codes "web", server) ∷ []; is_invalid = false }

abbrev base_agent : ParsedRecipeAgentDefinition
base_agent = record {
  name = codes "base";
  from = none;
  description = none;
  model_config = some model_config;
  session_config = none;
  tools = some (codes "read" ∷ []);
  mcp = some mcp;
  skills = none;
  subagents = none;
  system_instructions = none;
  declared_fields = [];
}

abbrev child_agent : ParsedRecipeAgentDefinition
child_agent = record base_agent {
  name = codes "child";
  from = some (codes "base");
  model_config = none;
  tools = none;
  mcp = none;
}

abbrev sources : List ParsedRecipeAgentDefinition
sources = child_agent ∷ base_agent ∷ []

abbrev child : RecipeAgentDefinition
child = resolve_over (resolve_root base_agent) child_agent

child-Chain : Chain sources (codes "child") 2 child
unfolding raw_definitions_of lookup insert text_eq
child-Chain =
    over (codes "child") (codes "base") child_agent 1 (resolve_root base_agent) refl refl
      (root (codes "base") base_agent refl refl)

Chain-definitions_from_sources_example :
    lookup (codes "child") (definitions_from_sources sources) ≡ some child
Chain-definitions_from_sources_example =
    Chain-definitions_from_sources sources (codes "child") 2 child child-Chain (omega arith)

definitions_from_sources-Chain_example : (n : ℕ) × Chain sources (codes "child") n child
definitions_from_sources-Chain_example =
    definitions_from_sources-Chain sources (codes "child") child
      Chain-definitions_from_sources_example

no_finding_iff_example :
    (inheritance_finding (raw_definitions_of sources []) max_inheritance_depth [] (codes "child")
      ≡ none)
    ↔ ((n : ℕ) × (d : RecipeAgentDefinition) × (n ≤ max_inheritance_depth)
        × Resolves (raw_definitions_of sources []) (codes "child") n d)
no_finding_iff_example = no_finding_iff (raw_definitions_of sources []) (codes "child")

is_clean :
    inheritance_finding (raw_definitions_of sources []) max_inheritance_depth [] (codes "child")
    ≡ none
is_clean = no_finding_iff_example.1 (2, child, omega arith, child-Chain)

inheritance_finding-loaded_example :
    (d : RecipeAgentDefinition) × (lookup (codes "child") (definitions_from_sources sources)
      ≡ some d)
    × (resolved_mcp (raw_definitions_of sources []) (codes "child") ≡ d.mcp)
inheritance_finding-loaded_example = inheritance_finding-loaded sources (codes "child") is_clean

abbrev packages : List RecipePackageMcpServer
packages =
    record {
      id = codes "web";
      required = false;
      tools = record {
        selection = record search_only { include = some (codes "*" ∷ []) };
        is_invalid = false;
      };
    }
    ∷ []

has_no_findings :
    validate_resolved_recipe_agent_source
      (λ s. s)
      (some packages)
      (raw_definitions_of sources [])
      (codes "child")
    ≡ []
unfolding validate_resolved_recipe_agent_source text_eq inheritance_finding
    pi_recipes.RecipeAgent.Validation.inheritance_of_raw
    pi_recipes.RecipeAgent.Validation.inheritance_of pi_recipes.RecipeAgent.Validation.find_base
    pi_recipes.RecipeAgent.Validation.resolved_model_provided
    pi_recipes.RecipeAgent.Validation.walk_chain pi_recipes.RecipeAgent.Validation.walk_raw
    pi_recipes.RecipeAgent.Validation.walk_base pi_recipes.RecipeAgent.Validation.invalid_mcp_policy
    pi_recipes.RecipeAgent.Validation.raw_mcp_chain_invalid
    pi_recipes.RecipeAgent.Validation.has_bad_activation pi_recipes.RecipeAgent.Validation.is_beyond
    pi_recipes.RecipeAgent.Validation.is_outside_package lookup raw_definitions_of insert has
    model_projection raw_mcp_invalid is_valid_recipe_mcp_tool_selection mcp_selection_allows_tool
    normalize_mcp_server_id trim pi_recipes.Prelude.Texts.trim_start
    pi_recipes.RecipeAgent.Mcp.valid_activation_selectors merge_mcp package_servers resolved_mcp
    pi_recipes.RecipeModel.Policy.merge_recipe_agent_model_config
has_no_findings = refl

validated_within_package_example :
    (tools : ToolSelection) × (lookup
        (normalize_mcp_server_id (λ s. s) (codes "web"))
        (package_servers (λ s. s) packages [])
      ≡ some tools)
    × (mcp_selection_allows_tool tools (trim (codes "search")) ≡ true)
unfolding text_eq lookup resolve_over merge_mcp resolve_root has trim
validated_within_package_example =
    validated_within_package (λ s. s) packages sources (codes "child") child (codes "web") server
      (codes "search") has_no_findings Chain-definitions_from_sources_example refl refl refl
