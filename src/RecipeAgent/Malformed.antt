-- ===== src/RecipeAgent/Malformed.antt =====
-- The malformed selections that the guard on agents lets through (src/recipe-agent.ts).
use pi_recipes.Prelude.{Text, codes}
use pi_recipes.Json.{Json, str, arr, obj, nil, item, end, field}

-- A server's block that includes all tools and excludes one, given as a text and not as an array.
abbrev pub scalar_exclude : Text → Json
scalar_exclude tool = obj (
    field (codes "include") (arr (item (str (codes "*")) nil))
      (field (codes "exclude") (str tool) end))

abbrev pub one_server : Text → Json → Json
one_server id server = obj (field (codes "servers") (obj (field id server end)) end)
