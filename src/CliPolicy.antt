-- ===== src/CliPolicy.antt =====
-- Which delegated mcp commands a recipe session may run (src/mcp-cli-policy.ts). An error is a
-- value with what its message names.
pub mod Listing
pub mod Distance
pub mod Closest
pub mod Arguments
pub mod Soundness
pub mod Literals
mod Tests
use pi_recipes.Prelude.{
  ℕ, Text, codes, text_eq, Bool, true, false, not, ◌&&◌, ◌||◌, List, [], ◌∷◌, ◌++◌, Option, none,
  some, any, find, map, if◌then◌else◌, ◌==◌, is_some, length, ltb,
}
use pi_recipes.Prelude.Texts.{
  trim, truthy, includes, split_at, strip_prefix, starts_with, lower_ascii, is_lower, is_upper,
  is_digit, has,
}
use pi_recipes.McpPolicy.{ToolSelection, McpSessionServer, or_none, mcp_session_allows_tool}
use Closest.{closest_name}
use pi_recipes.CliPolicy.Listing.{
  McpCliSessionPolicy, server_of, CliError, PolicyResult, flag_name, tool_selector, literal,
  with_no_oauth, forbidden_flag, is_ad_hoc, validate_exact_target, or_command, validate_list,
  call_option_unavailable, call_ad_hoc_target, positional_arguments, call_option_unknown,
  call_argument_invalid, needs_dotted_selector, needs_selector, args_removed, auth_unavailable,
  command_unavailable, error,
}

abbrev pub call_flags_with_value : List Text
call_flags_with_value = codes "--json" ∷ codes "--output" ∷ codes "--timeout" ∷ []

abbrev pub is_key_start : ℕ → Bool
is_key_start c = is_lower c || (is_upper c || c == b'_')

abbrev pub is_key_char : ℕ → Bool
is_key_char c = is_key_start c || (is_digit c || (c == b'.' || c == b'-'))

unfoldable pub key_rest : Text → Bool
key_rest [] = false
key_rest (c ∷ s) = c == b'=' || (is_key_char c && key_rest s)

-- /^[A-Za-z_][A-Za-z0-9_.-]*=/
unfoldable pub is_key_value : Text → Bool
unfolding key_rest
is_key_value [] = false
is_key_value (c ∷ s) = is_key_start c && key_rest s

-- What one argument is: the literal, a flag with its value in it or after it, a flag that is not
-- allowed, an assignment, or none of these.
pub data ArgumentKind : Type 0 where
  the_literal bad_flag assignment flag_with_value flag_before_value bad_argument : ArgumentKind

unfoldable pub kind_of : Text → ArgumentKind
kind_of arg =
    if text_eq arg literal
    then the_literal
    else if starts_with literal arg
    then (if not (has (flag_name arg) call_flags_with_value)
        then bad_flag
        else if any (λ c. c == b'=') arg
        then flag_with_value
        else flag_before_value)
    else if is_key_value arg
    then assignment
    else bad_argument

-- The loop of `callSyntaxError`; `skip` says that the index is on a flag's value.
unfoldable pub call_syntax_error : Bool → List Text → Option CliError
call_syntax_error skip [] = none
call_syntax_error true (arg ∷ args) = call_syntax_error false args
call_syntax_error false (arg ∷ args) = elim (kind_of arg) [
  | the_literal ↦ some positional_arguments
  | bad_flag ↦ some (call_option_unknown (flag_name arg))
  | flag_with_value ↦ call_syntax_error false args
  | flag_before_value ↦ call_syntax_error true args
  | assignment ↦ call_syntax_error false args
  | bad_argument ↦ some (call_argument_invalid arg)
]

-- The error for a call with no dotted selector.
allows : Option McpSessionServer → Text → Bool
allows none tool = false
allows (some server) tool = mcp_session_allows_tool server tool

split_tool_error : McpCliSessionPolicy → List Text → CliError
unfolding allows
split_tool_error policy (raw ∷ split ∷ _) =
    if truthy raw && (truthy split && allows (server_of raw policy) split)
    then needs_dotted_selector raw split
    else needs_selector
split_tool_error policy _ = needs_selector

blocked_error : Text → CliError
blocked_error flag =
    if text_eq flag (codes "--args") then args_removed else call_option_unavailable flag

raw_selector : List Text → Option (Text × Text)
raw_selector [] = none
raw_selector (raw ∷ args) = if truthy raw then tool_selector raw else none

after_selector : List Text → List Text
after_selector [] = []
after_selector (raw ∷ args) = args

-- `validateCall` for `call` followed by `rest`.
unfoldable pub validate_call : Text → List Text → McpCliSessionPolicy → PolicyResult
unfolding split_tool_error blocked_error raw_selector after_selector
validate_call name rest policy = elim (raw_selector rest) [
  | none ↦ error (split_tool_error policy rest)
  | some (server, tool) ↦
      if is_ad_hoc server
      then error call_ad_hoc_target
      else elim (validate_exact_target policy server (some tool)) [
        | some e ↦ error e
        | none ↦ elim (forbidden_flag (after_selector rest)) [
          | some blocked ↦ error (blocked_error blocked)
          | none ↦
              or_command (call_syntax_error false (after_selector rest))
                (with_no_oauth (name ∷ rest))
        ]
      ]
]

-- `validateDelegatedMcpCommand`
pub validate_delegated_mcp_command : List Text → McpCliSessionPolicy → PolicyResult
validate_delegated_mcp_command [] policy = error (command_unavailable [])
validate_delegated_mcp_command (name ∷ rest) policy =
    if text_eq name (codes "list")
    then validate_list name rest policy
    else if text_eq name (codes "call")
    then validate_call name rest policy
    else error (if text_eq name (codes "auth") then auth_unavailable else command_unavailable name)
