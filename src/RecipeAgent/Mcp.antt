-- ===== src/RecipeAgent/Mcp.antt =====
-- The `mcp:` block of an agent (src/recipe-agent.ts). `lower` stands for toLowerCase.
use pi_recipes.Prelude.{
  Text, codes, text_eq, Bool, true, false, not, ◌&&◌, ◌||◌, List, [], ◌∷◌, Option, none, some, any,
  all, map, length, if◌then◌else◌, ◌==◌,
}
use pi_recipes.Prelude.Texts.{trim, truthy, has, distinct_texts}
use pi_recipes.Prelude.Maps.{insert}
use pi_recipes.Json.{Json, str, obj, Fields, end, field, get, keys}
use pi_recipes.McpPolicy.{normalize_mcp_server_id}
use pi_recipes.RecipePackage.Selection.{
  string_array, is_object, as_record, record_of, has_own, is_malformed_array,
  parse_recipe_mcp_tool_selection,
}
use pi_recipes.RecipeAgent.Definition.{
  RecipeAgentMcp, RecipeAgentMcpServer, RecipeAgentMcpMode, cli, tools_mode,
}

-- `stringArray`: the texts of an array, trimmed.
abbrev pub trimmed_array : Option Json → List Text
trimmed_array value = map trim (string_array value)

abbrev trimmed_if_own : Option Json → Option (List Text)
trimmed_if_own none = none
trimmed_if_own (some v) = some (trimmed_array (some v))

-- new Set(values).size !== values.length
abbrev pub has_duplicates : List Text → Bool
has_duplicates values = not (length (distinct_texts [] values) == length values)

abbrev includes_star : Text → Bool
includes_star selector = any (λ c. c == b'*') selector

unfoldable pub valid_activation_selectors : Option (List Text) → Bool
valid_activation_selectors none = true
valid_activation_selectors (some selectors) =
    all
      (λ selector.
        truthy (trim selector) && (not (includes_star selector) || text_eq selector (codes "*")))
      selectors
    && (not (has (codes "*") selectors) || length selectors == 1)

-- The server's selections. The spread of the parsed selection leaves its mark behind, which is not
-- enumerable.
unfoldable pub parse_agent_server : Json → RecipeAgentMcpServer
parse_agent_server value = record {
  tools = (parse_recipe_mcp_tool_selection value).selection;
  defer = trimmed_if_own (get (codes "defer") (as_record value));
  eager = trimmed_if_own (get (codes "eager") (as_record value));
}

unfoldable pub parse_agent_servers :
    (Text → Text) → Fields → List (Text × RecipeAgentMcpServer) → List (Text × RecipeAgentMcpServer)
parse_agent_servers lower end servers = servers
parse_agent_servers lower (field server_id value rest) servers =
    parse_agent_servers lower rest
      (insert (normalize_mcp_server_id lower server_id) (parse_agent_server value) servers)

abbrev pub selector_keys : List Text
selector_keys = codes "include" ∷ codes "exclude" ∷ codes "defer" ∷ codes "eager" ∷ []

abbrev pub mode_of : Option Json → Option RecipeAgentMcpMode
mode_of (some (str s)) =
    if text_eq s (codes "cli")
    then some cli
    else if text_eq s (codes "tools")
    then some tools_mode
    else none
mode_of _ = none

abbrev is_cli : Option RecipeAgentMcpMode → Bool
is_cli (some cli) = true
is_cli _ = false

unfoldable pub is_malformed_server : Option RecipeAgentMcpMode → Json → Bool
is_malformed_server mode value =
    let server = as_record value in
    let defer = get (codes "defer") server in
    let eager = get (codes "eager") server in
    not (is_object value)
    || (any (λ key. not (has key selector_keys)) (keys server)
        || (any (λ key. has_duplicates (trimmed_array (get key server))) selector_keys
            || (is_malformed_array defer
                || (is_malformed_array eager
                    || (not (valid_activation_selectors (trimmed_if_own defer))
                        || (not (valid_activation_selectors (trimmed_if_own eager))
                            || is_cli mode
                              && (has_own (codes "defer") server
                                  || has_own (codes "eager") server)))))))

unfoldable pub any_malformed_server : Option RecipeAgentMcpMode → Fields → Bool
any_malformed_server mode end = false
any_malformed_server mode (field server_id value rest) =
    is_malformed_server mode value || any_malformed_server mode rest

-- `hasNormalizedMcpServerCollision`, with the ids that it has seen.
unfoldable pub has_collision : (Text → Text) → List Text → List Text → Bool
has_collision lower seen [] = false
has_collision lower seen (value ∷ rest) =
    let normalized = normalize_mcp_server_id lower value in
    has normalized seen || has_collision lower (normalized ∷ seen) rest

abbrev is_object_option : Option Json → Bool
is_object_option (some (obj o)) = true
is_object_option _ = false

abbrev is_unknown_mode : Option Json → Bool
is_unknown_mode none = false
is_unknown_mode (some v) = elim (mode_of (some v)) [ none ↦ true | some _ ↦ false ]

unfoldable pub is_malformed_mcp : (Text → Text) → Fields → Bool
is_malformed_mcp lower raw =
    let servers = get (codes "servers") raw in
    any_malformed_server (mode_of (get (codes "mode") raw)) (record_of servers)
    || (is_unknown_mode (get (codes "mode") raw)
        || (any (λ server_id. not (truthy (trim server_id))) (keys (record_of servers))
            || (has_collision lower [] (keys (record_of servers))
                || (not (is_object_option servers)
                    || any (λ key. not (has key (codes "mode" ∷ codes "servers" ∷ [])))
                        (keys raw)))))

unfoldable pub parse_mcp : (Text → Text) → Option Json → Option RecipeAgentMcp
parse_mcp lower none = none
parse_mcp lower (some value) =
    let raw = as_record value in
    some (record {
      mode = mode_of (get (codes "mode") raw);
      servers = parse_agent_servers lower (record_of (get (codes "servers") raw)) [];
      is_invalid = not (is_object value) || is_malformed_mcp lower raw;
    })
