-- ===== src/RecipeAgent/Validation.antt =====
-- The findings on the agents of a recipe (src/recipe-agent.ts). A finding keeps what its message
-- names. `lower` stands for toLowerCase.
use pi_recipes.Prelude.{
  ℕ, zero, suc, Text, text_eq, codes, Bool, true, false, not, ◌&&◌, ◌||◌, List, [], ◌∷◌, ◌++◌,
  Option, none, some, any, if◌then◌else◌,
}
use pi_recipes.Prelude.Texts.{has, trim, truthy}
use pi_recipes.Prelude.Maps.{lookup, insert}
use pi_recipes.McpPolicy.{
  ToolSelection, or_none, mcp_selection_allows_tool, normalize_mcp_server_id,
}
use pi_recipes.RecipePackage.Selection.{RecipePackageMcpServer, is_valid_recipe_mcp_tool_selection}
use pi_recipes.RecipeAgent.Definition.{
  ParsedRecipeAgentDefinition, RecipeAgentMcp, RecipeAgentMcpServer, RecipeAgentMcpMode, tools_mode,
  model_projection,
}
use pi_recipes.RecipeAgent.Mcp.{valid_activation_selectors}
use pi_recipes.RecipeAgent.Resolution.{RawDefinitions, parent, merge_mcp, max_inheritance_depth}

pub data InheritanceFinding : Type 0 where
  exceeds_depth not_found : Text → InheritanceFinding
  cyclic : Text → List Text → InheritanceFinding
  missing_base : Text → Text → InheritanceFinding

pub data AgentFinding : Type 0 where
  inheritance : InheritanceFinding → AgentFinding
  model_missing mcp_invalid : Text → AgentFinding

-- The body of `inheritanceFinding`, by what its tests find: the raw definition, whether its base is
-- on the stack, and the base's raw definition.
unfoldable pub find_base :
    Text
    → List Text
    → Text
    → Bool
    → Option ParsedRecipeAgentDefinition
    → Option InheritanceFinding
    → Option InheritanceFinding
find_base name stack base true raw_base below = some (cyclic name (stack ++ name ∷ base ∷ []))
find_base name stack base false none below = some (missing_base name base)
find_base name stack base false (some _) below = below

unfoldable pub inheritance_of :
    RawDefinitions
    → Text
    → List Text
    → Option Text
    → (Text → Option InheritanceFinding)
    → Option InheritanceFinding
inheritance_of raws name stack none below = none
inheritance_of raws name stack (some base) below =
    find_base name stack base (has base stack) (lookup base raws) (below base)

unfoldable pub inheritance_of_raw :
    RawDefinitions
    → Text
    → List Text
    → Option ParsedRecipeAgentDefinition
    → (Text → Option InheritanceFinding)
    → Option InheritanceFinding
inheritance_of_raw raws name stack none below = some (not_found name)
inheritance_of_raw raws name stack (some raw) below =
    inheritance_of raws name stack (parent raw) below

-- `inheritanceFinding`. The number is the bound on the stack's length less its length.
unfoldable pub inheritance_finding :
    RawDefinitions → ℕ → List Text → Text → Option InheritanceFinding
inheritance_finding raws zero stack name = some (exceeds_depth name)
inheritance_finding raws (suc n) stack name =
    inheritance_of_raw raws name stack (lookup name raws)
      (λ base. inheritance_finding raws n (stack ++ name ∷ []) base)

-- What a name's chain says, of a function of the raw definition and of what its base says: the shape
-- of `resolvedModelProvided`, `resolvedMcp` and `rawMcpChainInvalid`, with what is said off the chain.
module _ {ℓ} {A : Type ℓ} (off_chain : A)
    (on_raw : ParsedRecipeAgentDefinition → Option A → A) where
  unfoldable pub walk_base : ParsedRecipeAgentDefinition → Option Text → (Text → A) → A
  walk_base raw none below = on_raw raw none
  walk_base raw (some base) below = on_raw raw (some (below base))

  unfoldable pub walk_raw : Bool → Option ParsedRecipeAgentDefinition → (Text → A) → A
  walk_raw true raw below = off_chain
  walk_raw false none below = off_chain
  walk_raw false (some raw) below = walk_base raw (parent raw) below

  unfoldable pub walk_chain : RawDefinitions → ℕ → List Text → Text → A
  walk_chain raws zero stack name = off_chain
  walk_chain raws (suc n) stack name =
      walk_raw (has name stack) (lookup name raws)
        (λ base. walk_chain raws n (stack ++ name ∷ []) base)

abbrev pub or_false : Option Bool → Bool
or_false none = false
or_false (some b) = b

abbrev names_model : ParsedRecipeAgentDefinition → Bool
names_model raw = elim (model_projection raw.model_config) [
  | none ↦ false
  | some (name, level) ↦ elim name [ none ↦ false | some _ ↦ true ]
]

unfoldable pub resolved_model_provided : RawDefinitions → Text → Bool
resolved_model_provided raws name =
    walk_chain false (λ raw below. if names_model raw then true else or_false below) raws
      max_inheritance_depth [] name

abbrev pub or_no_mcp : Option (Option RecipeAgentMcp) → Option RecipeAgentMcp
or_no_mcp none = none
or_no_mcp (some mcp) = mcp

abbrev pub mcp_of_raw :
    ParsedRecipeAgentDefinition → Option (Option RecipeAgentMcp) → Option RecipeAgentMcp
mcp_of_raw raw below = merge_mcp (or_no_mcp below) raw.mcp

unfoldable pub resolved_mcp : RawDefinitions → Text → Option RecipeAgentMcp
resolved_mcp raws name = walk_chain none mcp_of_raw raws max_inheritance_depth [] name

abbrev pub Server : Type 0
Server = Text × RecipeAgentMcpServer

abbrev pub servers_of : Option RecipeAgentMcp → List Server
servers_of none = []
servers_of (some mcp) = mcp.servers

-- The selection of an agent, which has no mark.
abbrev pub is_valid_selection : RecipeAgentMcpServer → Bool
is_valid_selection server =
    is_valid_recipe_mcp_tool_selection (record { selection = server.tools; is_invalid = false })

abbrev is_marked : Option RecipeAgentMcp → Bool
is_marked none = false
is_marked (some mcp) = mcp.is_invalid

unfoldable pub raw_mcp_invalid : Option RecipeAgentMcp → Bool
raw_mcp_invalid mcp =
    is_marked mcp || any (λ server. not (is_valid_selection server.1)) (servers_of mcp)

unfoldable pub raw_mcp_chain_invalid : RawDefinitions → Text → Bool
raw_mcp_chain_invalid raws name =
    walk_chain false (λ raw below. if raw_mcp_invalid raw.mcp then true else or_false below) raws
      max_inheritance_depth [] name

-- The package's servers by normalised id; of two with one id, the later one counts.
unfoldable pub package_servers :
    (Text → Text)
    → List RecipePackageMcpServer
    → List (Text × ToolSelection)
    → List (Text × ToolSelection)
package_servers lower [] servers = servers
package_servers lower (server ∷ rest) servers =
    package_servers lower rest
      (insert (normalize_mcp_server_id lower server.id) server.tools.selection servers)

unfoldable pub is_beyond : Option ToolSelection → ToolSelection → Bool
is_beyond none selection = true
is_beyond (some bounds) selection =
    any
      (λ tool_name.
        let value = trim tool_name in
        not (text_eq value (codes "*")) && not (mcp_selection_allows_tool bounds value))
      (or_none selection.include)

-- Whether a server's selection is refused for its shape, or by the package.
unfoldable pub is_outside_package :
    (Text → Text) → Option (List (Text × ToolSelection)) → Server → Bool
is_outside_package lower bounds (server_id, server) =
    (not (truthy (trim server_id)) || not (is_valid_selection server)) || elim bounds [
      | none ↦ false
      | some servers ↦
          is_beyond (lookup (normalize_mcp_server_id lower server_id) servers) server.tools
    ]

abbrev is_tools_mode : Option RecipeAgentMcpMode → Bool
is_tools_mode (some tools_mode) = true
is_tools_mode _ = false

abbrev is_some {ℓ} : {A : Type ℓ} → Option A → Bool
is_some none = false
is_some (some _) = true

unfoldable pub has_bad_activation : Option RecipeAgentMcpMode → RecipeAgentMcpServer → Bool
has_bad_activation mode server =
    (not (is_tools_mode mode) && (is_some server.defer || is_some server.eager))
    || (not (valid_activation_selectors server.defer)
        || (not (valid_activation_selectors server.eager)
            || any
                (λ selector.
                  not (text_eq selector (codes "*"))
                  && not (mcp_selection_allows_tool server.tools selector))
                (or_none server.defer ++ or_none server.eager)))

abbrev mode_of_mcp : Option RecipeAgentMcp → Option RecipeAgentMcpMode
mode_of_mcp none = none
mode_of_mcp (some mcp) = mcp.mode

unfoldable pub invalid_mcp_policy :
    (Text → Text) → Option (List RecipePackageMcpServer) → RawDefinitions → Text → Bool
invalid_mcp_policy lower manifest raws name =
    let mcp = resolved_mcp raws name in
    let bounds : Option (List (Text × ToolSelection)) = elim manifest [
      | none ↦ none
      | some servers ↦ some (package_servers lower servers [])
    ] in
    raw_mcp_chain_invalid raws name
    || (any (is_outside_package lower bounds) (servers_of mcp)
        || any (λ server. has_bad_activation (mode_of_mcp mcp) server.1) (servers_of mcp))

abbrev pub inheritance_findings : Option InheritanceFinding → List AgentFinding
inheritance_findings none = []
inheritance_findings (some f) = inheritance f ∷ []

-- `validateResolvedRecipeAgentSource`; `manifest` has the servers of the package, if there is one.
unfoldable pub validate_resolved_recipe_agent_source :
    (Text → Text) → Option (List RecipePackageMcpServer) → RawDefinitions → Text → List AgentFinding
validate_resolved_recipe_agent_source lower manifest raws name =
    inheritance_findings (inheritance_finding raws max_inheritance_depth [] name)
    ++ (if not (resolved_model_provided raws name) then model_missing name ∷ [] else [])
    ++ (if invalid_mcp_policy lower manifest raws name then mcp_invalid name ∷ [] else [])
