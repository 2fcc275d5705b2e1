-- ===== src/ToolSearch.antt =====
-- The search for tools that are not active (src/tool-search.ts). `lower` stands for toLowerCase and
-- `before` for `left.localeCompare(right) <= 0`.
pub mod Terms
pub mod Activation
pub mod Enabling
pub mod Setup
mod Tests
use pi_recipes.Prelude.{
  ℕ, ◌+◌, Text, codes, text_eq, Bool, true, false, not, ◌&&◌, ◌||◌, List, [], ◌∷◌, ◌++◌, map,
  Option, none, some, any, keep, find, take, if◌then◌else◌, ◌==◌, ltb,
}
use pi_recipes.Prelude.Texts.{trim, truthy, includes, join}
use pi_recipes.Json.{Json}
use Terms.{words, SearchTerms, schema_search_terms}

abbrev pub recipe_tool_search_name : Text
recipe_tool_search_name = codes "tool_search"

abbrev pub legacy_mcp_tool_search_name : Text
legacy_mcp_tool_search_name = codes "mcp_search"

pub record RecipeSearchableTool : Type 0 where
  pub name : Text
  pub label : Option Text
  pub description : Text
  pub parameters : Option Json

pub record RecipeToolSearchOptions : Type 0 where
  pub tools : List RecipeSearchableTool
  pub deferred_tool_names : List Text

pub record ScoredTool : Type 0 where
  pub tool : RecipeSearchableTool
  pub score : ℕ

abbrev pub or_name : Option Text → Text → Text
or_name none name = name
or_name (some label) name = label

abbrev pub or_default : Option ℕ → ℕ
or_default none = 3
or_default (some limit) = limit

abbrev pub is_none_of : List Text → Bool
is_none_of [] = true
is_none_of (_ ∷ _) = false

abbrev pub has_term : Text → List Text → Bool
has_term term terms = any (text_eq term) terms

-- What a term of the query adds to the score.
pub term_score : Text → Text → Text → SearchTerms → (List Text × (List Text × List Text)) → Text → ℕ
term_score name label description terms sets term =
    (if has_term term sets.0 then 40 else if includes term name then 20 else 0)
    + ((if has_term term sets.1.0 then 30 else if includes term label then 15 else 0)
        + ((if includes term description then 16 else 0)
            + ((if has_term term sets.1.1
                  then 12
                  else if includes term terms.property_names
                  then 6
                  else 0)
                + (if includes term terms.property_descriptions then 6 else 0))))

pub sum_scores : (Text → ℕ) → List Text → ℕ
sum_scores f [] = 0
sum_scores f (term ∷ terms) = f term + sum_scores f terms

unfoldable pub score_tool : (Text → Text) → RecipeSearchableTool → Text → ℕ
unfolding term_score sum_scores
score_tool lower tool query =
    let normalized_query = lower (trim query) in
    let name = lower tool.name in
    let label = lower (or_name tool.label tool.name) in
    let description = lower tool.description in
    let terms = schema_search_terms lower tool.parameters in
    let sets : List Text × (List Text × List Text) =
      (words lower name, (words lower label, words lower terms.property_names)) in
    if not (truthy normalized_query)
    then 0
    else (if text_eq name normalized_query then 500 else 0)
      + ((if text_eq label normalized_query then 300 else 0)
          + ((if includes normalized_query name then 120 else 0)
              + ((if includes normalized_query label then 100 else 0)
                  + ((if includes normalized_query description then 60 else 0)
                      + sum_scores (term_score name label description terms sets)
                          (words lower normalized_query)))))

-- new Map(tools.map((tool) => [tool.name, tool])).get(name): the last tool of the name.
unfoldable pub tool_by_name : Text → List RecipeSearchableTool → Option RecipeSearchableTool
tool_by_name name [] = none
tool_by_name name (tool ∷ tools) = elim (tool_by_name name tools) [
  | some later ↦ some later
  | none ↦ if text_eq tool.name name then some tool else none
]

-- [...new Set(names)], after the names that stand before.
unfoldable pub distinct : List Text → List Text → List Text
distinct seen [] = []
distinct seen (name ∷ names) =
    let rest = distinct (name ∷ seen) names in if has_term name seen then rest else name ∷ rest

-- `none` is the error of a deferred tool that was not registered.
unfoldable pub resolve_deferred :
    List RecipeSearchableTool → List Text → Option (List RecipeSearchableTool)
resolve_deferred tools [] = some []
resolve_deferred tools (name ∷ names) = elim (tool_by_name name tools) [
  | none ↦ none
  | some tool ↦ elim (resolve_deferred tools names) [ none ↦ none | some rest ↦ some (tool ∷ rest) ]
]

pub data SearchSetup : Type 0 where
  not_registered reserved no_search : SearchSetup
  search : List RecipeSearchableTool → SearchSetup

-- `createRecipeToolSearch` up to the tool that it returns, which searches the deferred tools.
pub create_recipe_tool_search : RecipeToolSearchOptions → SearchSetup
create_recipe_tool_search options =
    elim (resolve_deferred options.tools (distinct [] options.deferred_tool_names)) [
      | none ↦ not_registered
      | some [] ↦ no_search
      | some (tool ∷ rest) ↦ elim (tool_by_name recipe_tool_search_name options.tools) [
        | some _ ↦ reserved
        | none ↦ search (tool ∷ rest)
      ]
    ]

-- right.score - left.score || left.tool.name.localeCompare(right.tool.name) is at most 0
abbrev pub comes_first : (Text → Text → Bool) → ScoredTool → ScoredTool → Bool
comes_first before left right =
    ltb right.score left.score
    || (left.score == right.score && before left.tool.name right.tool.name)

unfoldable pub insert : (Text → Text → Bool) → ScoredTool → List ScoredTool → List ScoredTool
insert before x [] = x ∷ []
insert before x (y ∷ ys) = if comes_first before x y then x ∷ y ∷ ys else y ∷ insert before x ys

-- A stable sort, as Array.prototype.sort is.
unfoldable pub sort : (Text → Text → Bool) → List ScoredTool → List ScoredTool
sort before [] = []
sort before (x ∷ xs) = insert before x (sort before xs)

-- The scored tools that are not active and match at all.
unfoldable pub candidates :
    (Text → Text) → Text → List Text → List RecipeSearchableTool → List ScoredTool
candidates lower query active deferred =
    keep (λ (m : ScoredTool). ltb 0 m.score)
      (map
        (λ (tool : RecipeSearchableTool). record {
          tool = tool;
          score = score_tool lower tool query;
        })
        (keep (λ (tool : RecipeSearchableTool). not (has_term tool.name active)) deferred))

unfoldable pub matches :
    (Text → Text)
    → (Text → Text → Bool)
    → Text
    → ℕ
    → List Text
    → List RecipeSearchableTool
    → List ScoredTool
matches lower before query limit active deferred =
    take limit (sort before (candidates lower query active deferred))

-- `execute` on the active tools: what is added, and the active tools afterwards.
unfoldable pub execute :
    (Text → Text)
    → (Text → Text → Bool)
    → Option Text
    → Option ℕ
    → List Text
    → List RecipeSearchableTool
    → List Text × List Text
execute lower before query limit active deferred =
    let found =
      matches lower before (or_name query []) (or_default limit) (distinct [] active) deferred in
    let added = map (λ (m : ScoredTool). m.tool.name) found in
    (added, if is_none_of added then active else distinct [] active ++ added)

-- `createRecipeToolSearchTools`: the names of the tools it returns, each of which searches the same.
pub create_recipe_tool_search_tools :
    RecipeToolSearchOptions → Bool → Option (List (Text × List RecipeSearchableTool))
create_recipe_tool_search_tools options include_legacy_mcp_alias =
    elim (create_recipe_tool_search options) [
      | not_registered ↦ none
      | reserved ↦ none
      | no_search ↦ some []
      | search deferred ↦
          if not include_legacy_mcp_alias
          then some ((recipe_tool_search_name, deferred) ∷ [])
          else if any (λ (t : RecipeSearchableTool). text_eq t.name legacy_mcp_tool_search_name)
              options.tools
          then none
          else some
              ((recipe_tool_search_name, deferred) ∷ (legacy_mcp_tool_search_name, deferred) ∷ [])
    ]
