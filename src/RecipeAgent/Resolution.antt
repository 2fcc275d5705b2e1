-- ===== src/RecipeAgent/Resolution.antt =====
-- Resolution of agents along their `from` chains (`definitionsFromSources` of src/recipe-agent.ts).
use pi_recipes.Prelude.{
  ℕ, zero, suc, Text, codes, Bool, true, false, List, [], ◌∷◌, ◌++◌, Option, none, some,
}
use pi_recipes.Prelude.Texts.{has}
use pi_recipes.Prelude.Maps.{lookup, insert}
use pi_recipes.RecipeModel.Policy.{merge_recipe_agent_model_config, or_base}
use pi_recipes.RecipeSession.{merge_recipe_agent_session_config}
use pi_recipes.RecipeAgent.Definition.{
  RecipeAgentDefinition, ParsedRecipeAgentDefinition, RecipeSystemInstructions, RecipeAgentMcp,
  append, replace, given,
}

abbrev pub max_inheritance_depth : ℕ
max_inheritance_depth = 128

abbrev pub RawDefinitions : Type 0
RawDefinitions = List (Text × ParsedRecipeAgentDefinition)

abbrev pub Definitions : Type 0
Definitions = List (Text × RecipeAgentDefinition)

unfoldable pub merge_system_instructions :
    Option RecipeSystemInstructions
    → Option RecipeSystemInstructions
    → Option RecipeSystemInstructions
merge_system_instructions none child = child
merge_system_instructions (some base) none = some base
merge_system_instructions (some base) (some child) = elim child.mode [
  | replace ↦ some child
  | append ↦
      some (record { mode = base.mode; content = base.content ++ codes "\n\n" ++ child.content })
]

unfoldable pub merge_mcp : Option RecipeAgentMcp → Option RecipeAgentMcp → Option RecipeAgentMcp
merge_mcp none child = child
merge_mcp (some base) none = some base
merge_mcp (some base) (some child) = some child

-- The agent that a definition inherits from.
abbrev pub parent : ParsedRecipeAgentDefinition → Option Text
parent raw = given raw.from

abbrev pub or_list : Option (List Text) → List Text → List Text
or_list none default = default
or_list (some xs) default = xs

-- What is resolved of a definition without a base.
unfoldable pub resolve_root : ParsedRecipeAgentDefinition → RecipeAgentDefinition
resolve_root raw = record {
  name = raw.name;
  from = given raw.from;
  description = raw.description;
  model_config = merge_recipe_agent_model_config none raw.model_config;
  session_config = merge_recipe_agent_session_config none raw.session_config;
  tools = or_list raw.tools [];
  mcp = merge_mcp none raw.mcp;
  skills = or_list raw.skills [];
  subagents = or_list raw.subagents [];
  system_instructions = merge_system_instructions none raw.system_instructions;
  declared_fields = raw.declared_fields;
}

-- What is resolved of a definition over its base.
unfoldable pub resolve_over :
    RecipeAgentDefinition → ParsedRecipeAgentDefinition → RecipeAgentDefinition
resolve_over base raw = record {
  name = raw.name;
  from = given raw.from;
  description = or_base raw.description base.description;
  model_config = merge_recipe_agent_model_config base.model_config raw.model_config;
  session_config = merge_recipe_agent_session_config base.session_config raw.session_config;
  tools = or_list raw.tools base.tools;
  mcp = merge_mcp base.mcp raw.mcp;
  skills = or_list raw.skills base.skills;
  subagents = or_list raw.subagents base.subagents;
  system_instructions = merge_system_instructions base.system_instructions raw.system_instructions;
  declared_fields = raw.declared_fields;
}

-- A result of `resolveDefinition`, with the resolved definitions that it leaves.
abbrev pub Resolved : Type 0
Resolved = Option RecipeAgentDefinition × Definitions

unfoldable pub settle : Text → RecipeAgentDefinition → Definitions → Resolved
settle name definition resolved = (some definition, insert name definition resolved)

-- What follows on the resolution of the base.
unfoldable pub after_base : Text → ParsedRecipeAgentDefinition → Resolved → Resolved
after_base name raw (none, resolved) = (none, resolved)
after_base name raw (some base, resolved) = settle name (resolve_over base raw) resolved

unfoldable pub resolve_raw :
    Text → ParsedRecipeAgentDefinition → Option Text → Definitions → (Text → Resolved) → Resolved
resolve_raw name raw none resolved below = settle name (resolve_root raw) resolved
resolve_raw name raw (some base) resolved below = after_base name raw (below base)

-- The body of `resolveDefinition`, by what its tests find: the definition that is resolved already,
-- whether the name is on the stack, and the raw definition.
unfoldable pub visit :
    Text
    → Option RecipeAgentDefinition
    → Bool
    → Option ParsedRecipeAgentDefinition
    → Definitions
    → (Text → Resolved)
    → Resolved
visit name (some definition) on_stack raw resolved below = (some definition, resolved)
visit name none true raw resolved below = (none, resolved)
visit name none false none resolved below = (none, resolved)
visit name none false (some raw) resolved below = resolve_raw name raw (parent raw) resolved below

-- `resolveDefinition`. The number says how much deeper the stack may grow: the bound on its length
-- less its length.
unfoldable pub resolve_definition : RawDefinitions → ℕ → List Text → Text → Definitions → Resolved
resolve_definition raws zero stack name resolved = (lookup name resolved, resolved)
resolve_definition raws (suc n) stack name resolved =
    visit name (lookup name resolved) (has name stack) (lookup name raws) resolved
      (λ base. resolve_definition raws n (stack ++ name ∷ []) base resolved)

abbrev pub add_definition : Text → Option RecipeAgentDefinition → Definitions → Definitions
add_definition name none definitions = definitions
add_definition name (some definition) definitions = insert name definition definitions

-- The loop over the raw definitions.
unfoldable pub resolve_all :
    RawDefinitions
    → List (Text × ParsedRecipeAgentDefinition)
    → Definitions
    → Definitions
    → Definitions
resolve_all raws [] resolved definitions = definitions
resolve_all raws ((name, _) ∷ rest) resolved definitions =
    let result = resolve_definition raws max_inheritance_depth [] name resolved in
    resolve_all raws rest result.1 (add_definition name result.0 definitions)

unfoldable pub raw_definitions_of :
    List ParsedRecipeAgentDefinition → RawDefinitions → RawDefinitions
raw_definitions_of [] raws = raws
raw_definitions_of (source ∷ rest) raws = raw_definitions_of rest (insert source.name source raws)

unfoldable pub definitions_from_sources : List ParsedRecipeAgentDefinition → Definitions
definitions_from_sources sources =
    let raws = raw_definitions_of sources [] in resolve_all raws raws [] []
