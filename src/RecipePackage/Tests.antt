-- ===== src/RecipePackage/Tests.antt =====
-- A manifest with two servers.
use pi_recipes.Prelude.{Text, codes, text_eq, true, false, List, [], ◌∷◌, some, ◌≡◌, refl, length}
use pi_recipes.Json.{Json, str, arr, obj, Items, nil, item, Fields, end, field, get, keys}
use pi_recipes.RecipeAgent.Mcp.{has_collision}
use pi_recipes.RecipePackage.{parse_mcp_config, string_value}
use pi_recipes.RecipePackage.Shape.{mcp_source_shape_findings}
use pi_recipes.RecipePackage.Servers.{mcp_source_shape_findings-kept, ids_of}

abbrev server_block : Text → Json
server_block id = obj (field (codes "id") (str id) end)

abbrev server_items : Items
server_items = item (server_block (codes "docs")) (item (server_block (codes "web")) nil)

abbrev mcp_block : Fields
mcp_block = field (codes "servers") (arr server_items) end

is_clean : mcp_source_shape_findings (λ s. s) (some (obj mcp_block)) ≡ []
unfolding mcp_source_shape_findings text_eq keys pi_recipes.Prelude.Texts.has
    pi_recipes.RecipePackage.Shape.manifest_findings get pi_recipes.Prelude.Texts.distinct_texts
    pi_recipes.RecipePackage.Shape.servers_findings
    pi_recipes.RecipePackage.Shape.server_list_findings pi_recipes.RecipePackage.Shape.id_findings
    string_value pi_recipes.Prelude.Texts.trim pi_recipes.RecipePackage.Shape.tools_findings
    pi_recipes.McpPolicy.normalize_mcp_server_id
is_clean = refl

mcp_source_shape_findings-kept_example :
    (length (parse_mcp_config (some (obj mcp_block))).servers ≡ 2)
    × (has_collision (λ s. s) [] (ids_of (parse_mcp_config (some (obj mcp_block))).servers) ≡ false)
unfolding get text_eq
mcp_source_shape_findings-kept_example =
    mcp_source_shape_findings-kept (λ s. s) mcp_block server_items is_clean refl
