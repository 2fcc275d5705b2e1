-- ===== src/McpPolicy.antt =====
-- Which MCP tools an agent may call (src/mcp-policy.ts, and mcpSessionAllowsTool of src/mcp.ts).
pub mod Names
pub mod Selection
mod Tests
use pi_recipes.Prelude.{
  ℕ, Text, codes, text_eq, Bool, true, false, not, ◌&&◌, ◌||◌, List, [], ◌∷◌, ◌++◌, Option, none,
  some, any, map, if◌then◌else◌, ◌==◌,
}
use pi_recipes.Prelude.Texts.{trim, truthy, is_lower, is_digit}
use mathlib.Core.List.{reverse}

-- RecipeMcpToolSelection of src/recipe-package.ts; a list that is left out is `none`.
pub record ToolSelection : Type 0 where
  pub include : Option (List Text)
  pub exclude : Option (List Text)

-- A server of the session, with what tool selections read, and the names of its pinned catalog.
pub record McpSessionServer : Type 0 where
  pub id : Text
  pub package_tools : ToolSelection
  pub agent_tools : List ToolSelection
  pub catalog : Option (List Text)

abbrev pub or_none {ℓ} : {A : Type ℓ} → Option (List A) → List A
or_none none = []
or_none (some xs) = xs

unfoldable pub mcp_selection_allows_tool : ToolSelection → Text → Bool
mcp_selection_allows_tool selection tool_name =
    let included =
      any (λ selector. text_eq (trim selector) (codes "*") || text_eq (trim selector) tool_name)
        (or_none selection.include) in
    if not included
    then false
    else not (any (λ selector. text_eq (trim selector) tool_name) (or_none selection.exclude))

unfoldable pub mcp_session_allows_tool : McpSessionServer → Text → Bool
mcp_session_allows_tool server tool_name =
    mcp_selection_allows_tool server.package_tools tool_name
    && any (λ selection. mcp_selection_allows_tool selection tool_name) server.agent_tools

-- The characters [a-z0-9_-] of an id.
abbrev pub is_id_char : ℕ → Bool
is_id_char c = is_lower c || (is_digit c || (c == b'_' || c == b'-'))

-- .replace(/[^a-z0-9_-]+/g, "-"): the flag says that the last character replaced was the one before.
replace_runs : Bool → Text → Text
replace_runs inside [] = []
replace_runs inside (c ∷ s) =
    let rest = replace_runs (not (is_id_char c)) s in
    if is_id_char c then c ∷ rest else if inside then rest else b'-' ∷ rest

-- .replace(/^-+/, "")
strip_dashes : Text → Text
strip_dashes [] = []
strip_dashes (c ∷ s) = if c == b'-' then strip_dashes s else c ∷ s

-- `lower` stands for toLowerCase.
unfoldable pub normalize_mcp_server_id : (Text → Text) → Text → Text
unfolding replace_runs strip_dashes
normalize_mcp_server_id lower value =
    let id =
      reverse (strip_dashes (reverse (strip_dashes (replace_runs false (lower (trim value)))))) in
    if truthy id then id else codes "mcp"

-- `resolveAgentMcpSelections`, over the entries of `mcp?.servers ?? {}`.
pub resolve_agent_mcp_selections :
    (Text → Text) → List (Text × ToolSelection) → List (Text × ToolSelection)
resolve_agent_mcp_selections lower [] = []
resolve_agent_mcp_selections lower ((server_id, selection) ∷ rest) =
    (normalize_mcp_server_id lower server_id, selection) ∷ resolve_agent_mcp_selections lower rest
