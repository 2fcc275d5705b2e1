-- ===== src/McpPolicy/Tests.antt =====
-- Runs of the tool selections and of server ids.
use pi_recipes.Prelude.{
  ℕ, Text, codes, Bool, true, false, List, [], ◌∷◌, Option, none, some, ◌≡◌, refl, ◌↔◌, ◌⊎◌, inl,
  inr, all, All,
}
use pi_recipes.McpPolicy.{ToolSelection, McpSessionServer, mcp_selection_allows_tool}
use pi_recipes.McpPolicy.Selection.{Names, selection_iff}

abbrev all_but_drop : ToolSelection
all_but_drop = record { include = some (codes "*" ∷ []); exclude = some (codes "drop" ∷ []) }

abbrev docs_server : McpSessionServer
docs_server = record {
  id = codes "docs";
  package_tools = all_but_drop;
  agent_tools = record { include = some (codes "find" ∷ []); exclude = none } ∷ [];
  catalog = none;
}

selection_iff_example : (mcp_selection_allows_tool all_but_drop (codes "find") ≡ true) ↔ (
    (Names (codes "*") (codes "*" ∷ []) ⊎ Names (codes "find") (codes "*" ∷ []))
    × (¬ Names (codes "find") (codes "drop" ∷ [])))
selection_iff_example = selection_iff all_but_drop (codes "find")

drop_named : Names (codes "drop") (codes "drop" ∷ [])
unfolding pi_recipes.Prelude.Texts.trim pi_recipes.Prelude.Texts.trim_start
drop_named = inl refl
