-- ===== src/McpPolicy/Selection.antt =====
-- When a selection lets a tool through.
use pi_recipes.Prelude.{
  Text, codes, text_eq, text_eq_iff, true, false, ◌||◌, ◌≡◌, ◌⊎◌, inl, inr, ◌↔◌, List, [], ◌∷◌, any,
  All, arith, Bool-cases,
}
use pi_recipes.Prelude.Texts.{trim}
use pi_recipes.McpPolicy.{
  ToolSelection, McpSessionServer, or_none, mcp_selection_allows_tool, mcp_session_allows_tool,
}

-- Some element has the property.
abbrev pub Some : (ToolSelection → Type 0) → List ToolSelection → Type 0
Some P [] = ⊥
Some P (s ∷ ss) = P s ⊎ Some P ss

-- One of the selectors is the name, once trimmed.
abbrev pub Names : Text → List Text → Type 0
Names t [] = ⊥
Names t (s ∷ ss) = (trim s ≡ t) ⊎ Names t ss

any-Names : (t : Text) (ss : List Text) → (any (λ s. text_eq (trim s) t) ss ≡ true) ↔ Names t ss
any-Names t [] = ground arith
any-Names t (s ∷ ss) = ground (arith, text_eq_iff (trim s) t, any-Names t ss)

any-Names_star :
    (t : Text) (ss : List Text)
    → (any (λ s. text_eq (trim s) (codes "*") || text_eq (trim s) t) ss ≡ true)
      ↔ (Names (codes "*") ss ⊎ Names t ss)
any-Names_star t [] = ground arith
any-Names_star t (s ∷ ss) =
    ground (arith, text_eq_iff (trim s) t, text_eq_iff (trim s) (codes "*"), any-Names_star t ss)

-- A selection allows a tool exactly if it includes the tool by its name or by `*`, and does not
-- exclude it by its name; white space around selectors does not count, and `*` excludes nothing
-- but a tool of that name.
pub selection_iff :
    (selection : ToolSelection) (t : Text)
    → (mcp_selection_allows_tool selection t ≡ true) ↔ (
        (Names (codes "*") (or_none selection.include) ⊎ Names t (or_none selection.include))
        × (¬ Names t (or_none selection.exclude)))
unfolding mcp_selection_allows_tool
selection_iff selection t =
    ground
      (arith, any-Names t (or_none selection.exclude), any-Names_star t (or_none selection.include))

any-exists :
    (t : Text) (selections : List ToolSelection)
    → (any (λ s. mcp_selection_allows_tool s t) selections ≡ true)
      ↔ Some (λ s. mcp_selection_allows_tool s t ≡ true) selections
any-exists t [] = ground arith
any-exists t (s ∷ ss) = ground (arith, any-exists t ss)

-- A session lets a tool of a server through exactly if the package's selection allows it and some
-- agent's selection allows it: neither widens the other.
pub session_iff :
    (server : McpSessionServer) (t : Text)
    → (mcp_session_allows_tool server t ≡ true) ↔ (
        (mcp_selection_allows_tool server.package_tools t ≡ true)
        × Some (λ s. mcp_selection_allows_tool s t ≡ true) server.agent_tools)
unfolding mcp_session_allows_tool
session_iff server t = ground (arith, any-exists t server.agent_tools)

selection-excluded :
    (s : ToolSelection) (t : Text)
    → Names t (or_none s.exclude)
    → mcp_selection_allows_tool s t ≡ false
selection-excluded s t h = elim (Bool-cases (mcp_selection_allows_tool s t)) [
  | inl allowed ↦ absurd (((selection_iff s t).0 allowed).1 h)
  | inr denied ↦ denied
]

no-Some :
    (ss : List ToolSelection) (t : Text)
    → All (λ s. Names t (or_none s.exclude)) ss
    → ¬ Some (λ s. mcp_selection_allows_tool s t ≡ true) ss
no-Some (s ∷ ss) t (here, later) (inl allowed) = ((selection_iff s t).0 allowed).1 here
no-Some (s ∷ ss) t (here, later) (inr more) = no-Some ss t later more
no-Some [] t h k = k

-- A tool that the package excludes, or that every agent excludes, is never let through, whatever
-- else includes it.
pub session_excludes :
    (server : McpSessionServer) (t : Text)
    → Names t (or_none server.package_tools.exclude)
      ⊎ All (λ s. Names t (or_none s.exclude)) server.agent_tools
    → mcp_session_allows_tool server t ≡ false
session_excludes server t (inl by_package) =
    ground (arith, selection-excluded server.package_tools t by_package, session_iff server t)
session_excludes server t (inr by_agents) = elim (Bool-cases (mcp_session_allows_tool server t)) [
  | inl allowed ↦
      absurd (no-Some server.agent_tools t by_agents ((session_iff server t).0 allowed).1)
  | inr denied ↦ denied
]
