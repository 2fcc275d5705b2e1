-- ===== src/RecipeAgent/Granting.antt =====
-- What an agent without findings may call (src/recipe-agent.ts).
use pi_recipes.Prelude.{
  Text, text_eq, text_eq_iff, codes, Bool, true, false, not, ◌||◌, List, [], ◌∷◌, ◌++◌, Option,
  none, some, Bool-cases, any, ◌≡◌, refl, sym, ap, ◌∙◌, subst, arith, inl, inr, if◌then◌else◌,
}
use pi_recipes.Prelude.Texts.{has, trim}
use pi_recipes.Prelude.Maps.{lookup}
use pi_recipes.McpPolicy.{
  ToolSelection, or_none, mcp_selection_allows_tool, normalize_mcp_server_id,
}
use pi_recipes.RecipePackage.Selection.{RecipePackageMcpServer}
use pi_recipes.RecipeAgent.Definition.{
  RecipeAgentDefinition, ParsedRecipeAgentDefinition, RecipeAgentMcpServer,
}
use pi_recipes.RecipeAgent.Resolution.{
  definitions_from_sources, raw_definitions_of, max_inheritance_depth,
}
use pi_recipes.RecipeAgent.Loading.{Chain-definitions_from_sources}
use pi_recipes.RecipeAgent.Agreement.{inheritance_finding-none, mcp_walk, []-Above}
use pi_recipes.RecipeAgent.Validation.{
  AgentFinding, InheritanceFinding, inheritance_findings, model_missing, mcp_invalid,
  inheritance_finding, resolved_mcp, servers_of, is_outside_package, is_beyond, package_servers,
  invalid_mcp_policy, validate_resolved_recipe_agent_source,
}

-- An agent for which no fault of its `from` chain is found is loaded, and the MCP policy that the
-- findings are about is the one of the loaded agent.
pub inheritance_finding-loaded :
    (sources : List ParsedRecipeAgentDefinition) (name : Text)
    → let raws = raw_definitions_of sources [] in
      inheritance_finding raws max_inheritance_depth [] name ≡ none
      → (d : RecipeAgentDefinition) × (lookup name (definitions_from_sources sources) ≡ some d)
        × (resolved_mcp raws name ≡ d.mcp)
unfolding resolved_mcp
inheritance_finding-loaded sources name clean =
    let raws = raw_definitions_of sources [] in
    let (n, d, le, r) = inheritance_finding-none raws max_inheritance_depth [] name clean in
    (
      d,
      Chain-definitions_from_sources sources name n d r le,
      mcp_walk raws n max_inheritance_depth [] name d r le ([]-Above raws n),
    )

no_findings :
    (f : Option InheritanceFinding) (provided invalid : Bool) (name : Text)
    → inheritance_findings f
        ++ (if not provided then model_missing name ∷ [] else [])
        ++ (if invalid then mcp_invalid name ∷ [] else [])
      ≡ []
    → (f ≡ none) × (provided ≡ true) × (invalid ≡ false)
no_findings none true false name e = (refl, refl, refl)
no_findings none true true name e = cc
no_findings none false invalid name e = cc
no_findings (some f) provided invalid name e = cc

second_false : (a b c : Bool) → (a || (b || c)) ≡ false → b ≡ false
second_false a b c e = ground (arith, e)

lookup-any :
    {A : Type 0} (p : Text × A → Bool) (k : Text) (a : A) (m : List (Text × A))
    → any p m ≡ false
    → lookup k m ≡ some a
    → p (k, a) ≡ false
unfolding lookup
lookup-any p k a [] none_of h = cc
lookup-any p k a ((j, b) ∷ m) none_of h = elim (Bool-cases (text_eq j k)) [
  | inl same ↦
      let found : some b ≡ some a = ground (arith, h, same) in
      let here : j ≡ k = (text_eq_iff j k).0 same in
      let first : p (j, b) ≡ false = ground (arith, none_of) in
      subst (λ i. p (i, a) ≡ false) here (subst (λ x. p (j, x) ≡ false) (cc) first)
  | inr other ↦ lookup-any p k a m (ground (arith, none_of)) (ground (arith, h, other))
]

has-any :
    (p : Text → Bool) (s : Text) (xs : List Text) → any p xs ≡ false → has s xs ≡ true → p s ≡ false
unfolding has
has-any p s [] none_of h = cc
has-any p s (x ∷ xs) none_of h = elim (Bool-cases (text_eq x s)) [
  | inl same ↦
      let first : p x ≡ false = ground (arith, none_of) in
      subst (λ i. p i ≡ false) ((text_eq_iff x s).0 same) first
  | inr other ↦ has-any p s xs (ground (arith, none_of)) (ground (arith, h, other))
]

-- The selectors of a selection that lies within a package's: each names a tool of the package.
is_beyond-allows :
    (bounds : Option ToolSelection) (selection : ToolSelection) (selector : Text)
    → is_beyond bounds selection ≡ false
    → has selector (or_none selection.include) ≡ true
    → text_eq (trim selector) (codes "*") ≡ false
    → (tools : ToolSelection) × (bounds ≡ some tools)
      × (mcp_selection_allows_tool tools (trim selector) ≡ true)
unfolding is_beyond
is_beyond-allows none selection selector e h exact = cc
is_beyond-allows (some tools) selection selector e h exact =
    let inside = has-any _ selector (or_none selection.include) e h in
    (tools, refl, ground (arith, inside, exact))

outside_package-beyond :
    (lower : Text → Text) (servers : List (Text × ToolSelection)) (id : Text)
    (server : RecipeAgentMcpServer)
    → is_outside_package lower (some servers) (id, server) ≡ false
    → is_beyond (lookup (normalize_mcp_server_id lower id) servers) server.tools ≡ false
unfolding is_outside_package
outside_package-beyond lower servers id server e = ground (arith, e)

module _ (lower : Text → Text) (package_list : List RecipePackageMcpServer)
    (sources : List ParsedRecipeAgentDefinition) (name : Text) where
  abbrev findings : List AgentFinding
  findings =
      validate_resolved_recipe_agent_source lower (some package_list)
        (raw_definitions_of sources []) name

  policy_within :
      findings ≡ []
      → (inheritance_finding (raw_definitions_of sources []) max_inheritance_depth [] name ≡ none)
        × (any
              (is_outside_package lower (some (package_servers lower package_list [])))
              (servers_of (resolved_mcp (raw_definitions_of sources []) name))
            ≡ false)
  unfolding validate_resolved_recipe_agent_source invalid_mcp_policy
  policy_within clean =
      let parts = no_findings _ _ _ name clean in (parts.0, second_false _ _ _ parts.2)

  -- An agent without findings stays within its package: for each server of the loaded agent, each
  -- tool that its selection includes by name is a tool of that server that the package allows.
  pub validated_within_package :
      (d : RecipeAgentDefinition) (id : Text) (server : RecipeAgentMcpServer) (selector : Text)
      → validate_resolved_recipe_agent_source lower
          (some package_list)
          (raw_definitions_of sources [])
          name
        ≡ []
      → lookup name (definitions_from_sources sources) ≡ some d
      → lookup id (servers_of d.mcp) ≡ some server
      → has selector (or_none server.tools.include) ≡ true
      → text_eq (trim selector) (codes "*") ≡ false
      → (tools : ToolSelection) × (lookup
            (normalize_mcp_server_id lower id)
            (package_servers lower package_list [])
          ≡ some tools)
        × (mcp_selection_allows_tool tools (trim selector) ≡ true)
  validated_within_package d id server selector clean loaded in_mcp included exact =
      let (found, within) = policy_within clean in
      let (e, loaded', same_mcp) = inheritance_finding-loaded sources name found in
      let same : some e ≡ some d = sym loaded' ∙ loaded in
      let same_d : e ≡ d = cc in
      let mcp : resolved_mcp (raw_definitions_of sources []) name ≡ d.mcp =
        same_mcp ∙ ap (λ (x : RecipeAgentDefinition). x.mcp) same_d in
      let within' =
        subst
          (λ m.
            any (is_outside_package lower (some (package_servers lower package_list [])))
              (servers_of m)
            ≡ false)
          mcp within in
      is_beyond-allows _ server.tools selector
        (outside_package-beyond lower _ id server
          (lookup-any _ id server (servers_of d.mcp) within' in_mcp))
        included exact
