-- ===== src/CliPolicy/Tests.antt =====
-- Runs of the delegated command policy on a session with one server.
use pi_recipes.Prelude.{
  ℕ, Text, codes, text_eq, List, [], ◌∷◌, Option, none, some, ◌≡◌, refl, ◌⊎◌, false, max, ◌≤◌, ◌/◌,
  length, All,
}
use mathlib.Core.List.{Memᴰ, reverse}
use pi_recipes.McpPolicy.{ToolSelection, McpSessionServer}
use pi_recipes.CliPolicy.{validate_delegated_mcp_command}
use pi_recipes.CliPolicy.Listing.{
  McpCliSessionPolicy, PolicyResult, command, no_oauth, literal, tool_selector, is_ad_hoc,
  validate_exact_target,
}
use pi_recipes.CliPolicy.Soundness.{IsSafeCall, IsSafeList, call_sound, list_sound}
use pi_recipes.CliPolicy.Literals.{json_literal_takes_no_oauth}
use pi_recipes.CliPolicy.Distance.{distance, lev}
use pi_recipes.CliPolicy.Distance.Rows.{distance-lev}
use pi_recipes.CliPolicy.Closest.{closest_name, normalize}
use pi_recipes.CliPolicy.Closest.Nearest.{closest_name-IsNearest, away}

abbrev search_server : McpSessionServer
search_server = record {
  id = codes "docs";
  package_tools = record { include = some (codes "*" ∷ []); exclude = some (codes "drop" ∷ []) };
  agent_tools = record { include = some (codes "find" ∷ []); exclude = none } ∷ [];
  catalog = none;
}

abbrev test_policy : McpCliSessionPolicy
test_policy = (codes "docs", search_server) ∷ []

abbrev test_call : List Text
test_call = codes "q=pi" ∷ codes "--json" ∷ []

call_passes :
    validate_delegated_mcp_command (codes "call" ∷ codes "docs.find" ∷ test_call) test_policy
    ≡ command (codes "call" ∷ codes "docs.find" ∷ codes "q=pi" ∷ codes "--json" ∷ no_oauth ∷ [])
unfolding validate_delegated_mcp_command pi_recipes.CliPolicy.validate_call
    pi_recipes.CliPolicy.raw_selector pi_recipes.CliPolicy.after_selector tool_selector is_ad_hoc
    validate_exact_target pi_recipes.CliPolicy.Listing.server_of
    pi_recipes.CliPolicy.Listing.forbidden_flag pi_recipes.CliPolicy.Listing.options_of
    pi_recipes.CliPolicy.Listing.flag_name pi_recipes.CliPolicy.Listing.with_no_oauth
    pi_recipes.CliPolicy.call_syntax_error pi_recipes.CliPolicy.kind_of
    pi_recipes.CliPolicy.is_key_value pi_recipes.CliPolicy.key_rest pi_recipes.CliPolicy.allows
    pi_recipes.CliPolicy.Listing.keys closest_name text_eq pi_recipes.Prelude.Texts.trim
    pi_recipes.Prelude.Texts.trim_start pi_recipes.Prelude.Texts.split_at
    pi_recipes.Prelude.Texts.strip_prefix pi_recipes.Prelude.Texts.lower_ascii
    pi_recipes.Prelude.Texts.has pi_recipes.McpPolicy.mcp_session_allows_tool
    pi_recipes.McpPolicy.mcp_selection_allows_tool
call_passes = refl

list_passes :
    validate_delegated_mcp_command (codes "list" ∷ codes "docs" ∷ []) test_policy
    ≡ command (codes "list" ∷ codes "docs" ∷ no_oauth ∷ [])
unfolding validate_delegated_mcp_command pi_recipes.CliPolicy.Listing.validate_list
    pi_recipes.CliPolicy.Listing.list_target pi_recipes.CliPolicy.Listing.list_target_error
    pi_recipes.CliPolicy.Listing.list_output_mode_error pi_recipes.CliPolicy.Listing.distinct_modes
    tool_selector is_ad_hoc validate_exact_target pi_recipes.CliPolicy.Listing.server_of
    pi_recipes.CliPolicy.Listing.forbidden_flag pi_recipes.CliPolicy.Listing.options_of
    pi_recipes.CliPolicy.Listing.flag_name pi_recipes.CliPolicy.Listing.with_no_oauth text_eq
    pi_recipes.Prelude.Texts.trim pi_recipes.Prelude.Texts.trim_start
    pi_recipes.Prelude.Texts.split_at pi_recipes.Prelude.Texts.strip_prefix
    pi_recipes.Prelude.Texts.lower_ascii pi_recipes.Prelude.Texts.has
list_passes = refl

call_sound_example :
    IsSafeCall test_policy
      (codes "docs.find")
      test_call
      (codes "call" ∷ codes "docs.find" ∷ codes "q=pi" ∷ codes "--json" ∷ no_oauth ∷ [])
call_sound_example = call_sound test_policy (codes "docs.find") test_call _ call_passes

list_sound_example :
    IsSafeList test_policy (codes "docs" ∷ []) (codes "list" ∷ codes "docs" ∷ no_oauth ∷ [])
list_sound_example = list_sound test_policy (codes "docs" ∷ []) _ list_passes

selects : tool_selector (codes "docs.find") ≡ some (codes "docs", codes "find")
unfolding tool_selector pi_recipes.Prelude.Texts.trim pi_recipes.Prelude.Texts.trim_start
    pi_recipes.Prelude.Texts.split_at text_eq
selects = refl

is_configured : is_ad_hoc (codes "docs") ≡ false
unfolding is_ad_hoc text_eq pi_recipes.Prelude.Texts.strip_prefix
    pi_recipes.Prelude.Texts.lower_ascii pi_recipes.Prelude.Texts.has
    pi_recipes.Prelude.Texts.split_at
is_configured = refl

is_available : validate_exact_target test_policy (codes "docs") (some (codes "find")) ≡ none
unfolding validate_exact_target pi_recipes.CliPolicy.Listing.server_of text_eq
    pi_recipes.McpPolicy.mcp_session_allows_tool pi_recipes.McpPolicy.mcp_selection_allows_tool
    pi_recipes.Prelude.Texts.trim pi_recipes.Prelude.Texts.trim_start pi_recipes.CliPolicy.allows
is_available = refl

json_literal_takes_no_oauth_example :
    validate_delegated_mcp_command
      (codes "call" ∷ codes "docs.find" ∷ codes "--json" ∷ literal ∷ [])
      test_policy
    ≡ command (codes "call" ∷ codes "docs.find" ∷ codes "--json" ∷ no_oauth ∷ literal ∷ [])
json_literal_takes_no_oauth_example =
    json_literal_takes_no_oauth test_policy (codes "docs.find") (codes "docs") (codes "find")
      selects is_configured is_available

distance-lev_example :
    distance (codes "fnid") (codes "find") ≡ lev (reverse (codes "fnid")) (reverse (codes "find"))
distance-lev_example = distance-lev (codes "fnid") (codes "find")

suggests : closest_name (codes "fnd") (codes "drop" ∷ codes "find" ∷ []) ≡ some (codes "find")
unfolding closest_name normalize pi_recipes.CliPolicy.Closest.best_of distance
    pi_recipes.CliPolicy.Distance.first_row pi_recipes.CliPolicy.Distance.last_cell
    pi_recipes.CliPolicy.Distance.next_row pi_recipes.CliPolicy.Distance.row_from
    pi_recipes.CliPolicy.Distance.rows pi_recipes.Prelude.Texts.lower_ascii
suggests = refl

closest_name-IsNearest_example :
    Memᴰ (codes "find") (codes "drop" ∷ codes "find" ∷ [])
    × All
        (λ c. away (normalize (codes "fnd")) (codes "find") ≤ away (normalize (codes "fnd")) c)
        (codes "drop" ∷ codes "find" ∷ [])
    × (away (normalize (codes "fnd")) (codes "find")
        ≤ max 2 (
            max (length (normalize (codes "fnd"))) (max (length (normalize (codes "find"))) 1) / 3))
closest_name-IsNearest_example =
    closest_name-IsNearest (codes "fnd") (codes "drop" ∷ codes "find" ∷ []) (codes "find") suggests
