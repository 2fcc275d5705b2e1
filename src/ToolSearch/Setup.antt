-- ===== src/ToolSearch/Setup.antt =====
-- Which tools a search is over, and that its name is free.
use mathlib.Core.Path.{ap₂}
use mathlib.Core.List.{Memᴰ}
use pi_recipes.Prelude.{
  Text, text_eq, text_eq_iff, true, List, [], ◌∷◌, map, none, some, Option-cases, ◌≡◌, refl, All,
  inl, inr, arith, ap, sym, subst, ◌≢◌, ◌∙◌,
}
use pi_recipes.ToolSearch.{
  RecipeSearchableTool, RecipeToolSearchOptions, search, tool_by_name, resolve_deferred, distinct,
  create_recipe_tool_search, recipe_tool_search_name,
}

some-injective : {A : Type 0} {x y : A} → some x ≡ some y → x ≡ y
some-injective e = cc

tool_by_name-name :
    (name : Text) (tools : List RecipeSearchableTool) (tool : RecipeSearchableTool)
    → tool_by_name name tools ≡ some tool
    → (tool.name ≡ name) × Memᴰ tool tools
unfolding tool_by_name
tool_by_name-name name [] tool e = cc
tool_by_name-name name (t ∷ ts) tool e = elim (Option-cases (tool_by_name name ts)) [
  | inl missing ↦
      let chosen : (t ≡ tool) × (text_eq t.name name ≡ true) = ground arith in
      (
        ap (λ (x : RecipeSearchableTool). x.name) (sym chosen.0)
            ∙ (text_eq_iff t.name name).0 chosen.1,
        Memᴰ.head (sym chosen.0),
      )
  | inr (later, found) ↦
      let below : tool_by_name name ts ≡ some tool = cc in
      let (named, member) = tool_by_name-name name ts tool below in (named, Memᴰ.tail member)
]

-- The tools of those names, in their order, all of them registered.
abbrev IsResolved : List RecipeSearchableTool → List Text → List RecipeSearchableTool → Type 0
IsResolved tools names deferred =
    (map (λ (t : RecipeSearchableTool). t.name) deferred ≡ names) × All (λ t. Memᴰ t tools) deferred

resolve_deferred-names :
    (tools : List RecipeSearchableTool) (names : List Text) (deferred : List RecipeSearchableTool)
    → resolve_deferred tools names ≡ some deferred
    → IsResolved tools names deferred
unfolding resolve_deferred
resolve_deferred-names tools [] deferred e =
    subst (IsResolved tools []) (some-injective e) (refl, tt)
resolve_deferred-names tools (name ∷ names) deferred e =
    elim (Option-cases (tool_by_name name tools)) [
      | inl missing ↦ cc
      | inr (tool, found) ↦ elim (Option-cases (resolve_deferred tools names)) [
        | inl missing ↦ cc
        | inr (rest, resolved) ↦
            let same : some (tool ∷ rest) ≡ some deferred = cc in
            let (named, member) = tool_by_name-name name tools tool found in
            let (listed, members) = resolve_deferred-names tools names rest resolved in
            subst (IsResolved tools (name ∷ names)) (some-injective same)
              (ap₂ ◌∷◌ named listed, (member, members))
      ]
    ]

-- A search is over exactly the deferred tools, each once and in the order of their first mention,
-- all of them registered, at least one; and no registered tool has the name of the search.
pub create_recipe_tool_search-IsOver :
    (options : RecipeToolSearchOptions) (deferred : List RecipeSearchableTool)
    → create_recipe_tool_search options ≡ search deferred
    → (map (λ (t : RecipeSearchableTool). t.name) deferred
        ≡ distinct [] options.deferred_tool_names)
      × All (λ t. Memᴰ t options.tools) deferred
      × (deferred ≢ [])
      × (tool_by_name recipe_tool_search_name options.tools ≡ none)
unfolding create_recipe_tool_search
create_recipe_tool_search-IsOver options deferred e =
    elim (Option-cases (resolve_deferred options.tools (distinct [] options.deferred_tool_names))) [
      | inl missing ↦ cc
      | inr ([], resolved) ↦ cc
      | inr (tool ∷ rest, resolved) ↦
          elim (Option-cases (tool_by_name recipe_tool_search_name options.tools)) [
            | inr (other, found) ↦ cc
            | inl free ↦
                let same : deferred ≡ tool ∷ rest = cc in
                let (listed, members) =
                  subst (IsResolved options.tools (distinct [] options.deferred_tool_names))
                    (sym same)
                    (resolve_deferred-names options.tools (distinct [] options.deferred_tool_names)
                      (tool ∷ rest) resolved) in
                (listed, members, (λ empty. cc), free)
          ]
    ]
