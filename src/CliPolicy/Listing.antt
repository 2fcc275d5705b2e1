-- ===== src/CliPolicy/Listing.antt =====
-- The policy of a session, and which listings it allows (src/mcp-cli-policy.ts).
use pi_recipes.Prelude.{
  Text, codes, text_eq, Bool, true, false, not, ◌&&◌, ◌||◌, List, [], ◌∷◌, Option, none, some, any,
  find, map, if◌then◌else◌, ◌==◌,
}
use pi_recipes.Prelude.Texts.{trim, truthy, split_at, starts_with, lower_ascii, has}
use pi_recipes.McpPolicy.{McpSessionServer, or_none, mcp_session_allows_tool}
use pi_recipes.CliPolicy.Closest.{closest_name}

-- The Map from ids to servers, in the order of insertion.
abbrev pub McpCliSessionPolicy : Type 0
McpCliSessionPolicy = List (Text × McpSessionServer)

unfoldable pub server_of : Text → McpCliSessionPolicy → Option McpSessionServer
server_of id [] = none
server_of id ((key, server) ∷ rest) = if text_eq key id then some server else server_of id rest

put_server : Text → McpSessionServer → McpCliSessionPolicy → McpCliSessionPolicy
put_server id server [] = (id, server) ∷ []
put_server id server ((key, old) ∷ rest) =
    if text_eq key id then (key, server) ∷ rest else (key, old) ∷ put_server id server rest

put_servers : List McpSessionServer → McpCliSessionPolicy → McpCliSessionPolicy
unfolding put_server
put_servers [] policy = policy
put_servers (server ∷ rest) policy = put_servers rest (put_server server.id server policy)

create_mcp_cli_session_policy : List McpSessionServer → McpCliSessionPolicy
unfolding put_servers
create_mcp_cli_session_policy servers = put_servers servers []

pub data CliError : Type 0 where
  list_option_unavailable call_option_unavailable : Text → CliError
  several_output_modes list_ad_hoc_target call_ad_hoc_target : CliError
  server_unavailable : Text → Option Text → List Text → CliError
  tool_unavailable : Text → Text → Option Text → CliError
  positional_arguments : CliError
  call_option_unknown call_argument_invalid : Text → CliError
  needs_dotted_selector : Text → Text → CliError
  needs_selector args_removed auth_unavailable : CliError
  command_unavailable : Text → CliError

pub data PolicyResult : Type 0 where
  command : List Text → PolicyResult
  error : CliError → PolicyResult

abbrev forbidden_delegated_flags : List Text
forbidden_delegated_flags =
    codes "--config"
    ∷ codes "--root"
    ∷ codes "--log-level"
    ∷ codes "--http-url"
    ∷ codes "--sse"
    ∷ codes "--stdio"
    ∷ codes "--stdio-bin"
    ∷ codes "--stdio-arg"
    ∷ codes "--header"
    ∷ codes "--env"
    ∷ codes "--cwd"
    ∷ codes "--name"
    ∷ codes "--description"
    ∷ codes "--persist"
    ∷ codes "--allow-http"
    ∷ codes "--insecure"
    ∷ codes "--yes"
    ∷ codes "--server"
    ∷ codes "--tool"
    ∷ codes "--tail-log"
    ∷ codes "--brief"
    ∷ codes "--signatures"
    ∷ codes "--args"
    ∷ codes "--no-oauth"
    ∷ codes "--oauth-timeout"
    ∷ codes "--raw-strings"
    ∷ codes "--no-coerce"
    ∷ []

abbrev pub is_forbidden : Text → Bool
is_forbidden flag = has flag forbidden_delegated_flags

unfoldable pub flag_name : Text → Text
flag_name value = elim (split_at b'=' value) [ none ↦ value | some (name, rest) ↦ name ]

-- The server and the tool of `server.tool`, split at the first dot.
unfoldable pub tool_selector : Text → Option (Text × Text)
tool_selector value =
    let ref = trim value in
    if any (λ c. c == b'(' || c == b')') ref then none else elim (split_at b'.' ref) [
      | none ↦ none
      | some (server, tool) ↦ if truthy server && truthy tool then some (server, tool) else none
    ]

abbrev pub literal : Text
literal = codes "--"

abbrev pub no_oauth : Text
no_oauth = codes "--no-oauth"

-- args.slice(0, args.indexOf("--")), or all of them
unfoldable pub options_of : List Text → List Text
options_of [] = []
options_of (arg ∷ args) = if text_eq arg literal then [] else arg ∷ options_of args

unfoldable pub with_no_oauth : List Text → List Text
with_no_oauth [] = no_oauth ∷ []
with_no_oauth (arg ∷ args) =
    if text_eq arg literal then no_oauth ∷ arg ∷ args else arg ∷ with_no_oauth args

unfoldable pub forbidden_flag : List Text → Option Text
forbidden_flag args = find is_forbidden (map flag_name (options_of args))

abbrev is_mode : Text → Bool
is_mode flag =
    text_eq flag (codes "--schema")
    || (text_eq flag (codes "--all-parameters") || text_eq flag (codes "--status"))

abbrev truthy_list : List Text → Bool
truthy_list [] = false
truthy_list (_ ∷ _) = true

-- new Set(…).size > 1, the three flags being mapped to three modes.
unfoldable pub distinct_modes : List Text → List Text → Bool
distinct_modes [] seen = false
distinct_modes (flag ∷ flags) seen =
    let next = distinct_modes flags (if is_mode flag then flag ∷ seen else seen) in
    if is_mode flag && (truthy_list seen && not (has flag seen)) then true else next

unfoldable pub list_output_mode_error : List Text → Option CliError
unfolding distinct_modes
list_output_mode_error args =
    if distinct_modes (map flag_name (options_of args)) [] then some several_output_modes else none

-- /^(?:https?:\/\/|[^/]+\/)/i
unfoldable pub is_ad_hoc : Text → Bool
is_ad_hoc s =
    let low = map lower_ascii s in
    starts_with (codes "http://") low
    || (starts_with (codes "https://") low
        || (elim (split_at b'/' s) [ none ↦ false | some (before, after) ↦ truthy before ]))

unfoldable pub keys : McpCliSessionPolicy → List Text
keys policy = map (λ p. p.0) policy

unfoldable pub validate_exact_target : McpCliSessionPolicy → Text → Option Text → Option CliError
unfolding keys
validate_exact_target policy server tool = elim (server_of server policy) [
  | none ↦ some (server_unavailable server (closest_name server (keys policy)) (keys policy))
  | some configured ↦ elim tool [
    | none ↦ none
    | some t ↦
        if mcp_session_allows_tool configured t
        then none
        else some (tool_unavailable t server (closest_name t (or_none configured.catalog)))
  ]
]

abbrev pub tool_part : Option (Text × Text) → Option Text
tool_part none = none
tool_part (some (server, tool)) = some tool

abbrev pub server_part : Option (Text × Text) → Text → Text
server_part none target = target
server_part (some (server, tool)) target = server

abbrev pub dash : Text
dash = codes "-"

-- The optional target: args[1] && !args[1].startsWith("-") ? args[1] : undefined
unfoldable pub list_target : List Text → Option Text
list_target [] = none
list_target (arg ∷ args) = if truthy arg && not (starts_with dash arg) then some arg else none

unfoldable pub list_target_error : McpCliSessionPolicy → List Text → Option CliError
list_target_error policy rest = elim (list_target rest) [
  | none ↦ none
  | some target ↦
      validate_exact_target policy (server_part (tool_selector target) target)
        (tool_part (tool_selector target))
]

abbrev pub or_command : Option CliError → List Text → PolicyResult
or_command none args = command args
or_command (some e) args = error e

abbrev is_ad_hoc_target : Text → Bool
is_ad_hoc_target arg = not (starts_with dash arg) && is_ad_hoc arg

-- `validateList` for `list` followed by `rest`.
unfoldable pub validate_list : Text → List Text → McpCliSessionPolicy → PolicyResult
validate_list name rest policy = elim (forbidden_flag rest) [
  | some blocked ↦ error (list_option_unavailable blocked)
  | none ↦ elim (list_output_mode_error rest) [
    | some e ↦ error e
    | none ↦
        if any is_ad_hoc_target rest
        then error list_ad_hoc_target
        else or_command (list_target_error policy rest) (with_no_oauth (name ∷ rest))
  ]
]
