-- ===== src/ToolSearch/Tests.antt =====
-- A search over two deferred tools.
use pi_recipes.Prelude.{◌||◌, Text, text_eq, codes, true, List, [], ◌∷◌, none, some, All, ◌≡◌, refl}
use pi_recipes.ToolSearch.{
  RecipeSearchableTool, RecipeToolSearchOptions, search, create_recipe_tool_search, candidates,
  matches, execute, has_term, distinct, tool_by_name, resolve_deferred,
}
use pi_recipes.ToolSearch.Activation.{AreBest, matches_best}
use pi_recipes.ToolSearch.Enabling.{IsEnabled, execute_enables}

abbrev tool_of : Text → RecipeSearchableTool
tool_of name = record { name = name; label = none; description = codes "files"; parameters = none }

abbrev test_tools : List RecipeSearchableTool
test_tools = tool_of (codes "find") ∷ tool_of (codes "drop") ∷ []

abbrev test_options : RecipeToolSearchOptions
test_options = record {
  tools = test_tools;
  deferred_tool_names = codes "find" ∷ codes "drop" ∷ codes "find" ∷ [];
}

searches : create_recipe_tool_search test_options ≡ search test_tools
unfolding create_recipe_tool_search resolve_deferred distinct tool_by_name text_eq
searches = refl

matches_best_example :
    AreBest 1
      (matches (λ s. s) (λ s t. true) (codes "find") 1 [] test_tools)
      (candidates (λ s. s) (codes "find") [] test_tools)
matches_best_example = matches_best (λ s t. true) (λ s. s) (codes "find") 1 [] test_tools

execute_enables_example :
    All
      (IsEnabled (λ s. s) (codes "find") (codes "drop" ∷ []) test_tools)
      (execute (λ s. s) (λ s t. true) (some (codes "find")) none (codes "drop" ∷ []) test_tools).0
    × ((n : Text)
        → has_term n
            (execute
              (λ s. s)
              (λ s t. true)
              (some (codes "find"))
              none
              (codes "drop" ∷ [])
              test_tools).1
          ≡ (has_term n (codes "drop" ∷ [])
              || has_term n
                  (execute
                    (λ s. s)
                    (λ s t. true)
                    (some (codes "find"))
                    none
                    (codes "drop" ∷ [])
                    test_tools).0))
execute_enables_example =
    execute_enables (λ s. s) (λ s t. true) (some (codes "find")) none (codes "drop" ∷ []) test_tools
