-- ===== src/CliPolicy/Literals.antt =====
-- Where --no-oauth lands when a flag's value is the literal `--`.
use pi_recipes.Prelude.{
  Text, codes, text_eq, text_eq_iff, text_eq_refl, false, ◌≡◌, refl, [], ◌∷◌, none, some, arith,
  Bool-cases, inl, inr,
}
use pi_recipes.Prelude.Texts.{has, strip_prefix, split_at, trim}
use pi_recipes.CliPolicy.{kind_of, call_syntax_error, validate_call, validate_delegated_mcp_command}
use pi_recipes.CliPolicy.Listing.{
  McpCliSessionPolicy, command, flag_name, tool_selector, literal, no_oauth, with_no_oauth,
  forbidden_flag, options_of, is_ad_hoc, validate_exact_target,
}

selector-literal : tool_selector literal ≡ none
unfolding tool_selector trim split_at
selector-literal = refl

selector-nil : tool_selector [] ≡ none
unfolding tool_selector trim split_at
selector-nil = refl

json_literal-syntax : call_syntax_error false (codes "--json" ∷ literal ∷ []) ≡ none
unfolding call_syntax_error kind_of flag_name split_at has text_eq strip_prefix
json_literal-syntax = refl

json_literal-free : forbidden_flag (codes "--json" ∷ literal ∷ []) ≡ none
unfolding forbidden_flag options_of flag_name split_at has text_eq
json_literal-free = refl

text_eq-json : text_eq (codes "--json") literal ≡ false
unfolding text_eq
text_eq-json = refl

text_eq-call : text_eq (codes "call") literal ≡ false
unfolding text_eq
text_eq-call = refl

with_no_oauth-json :
    (raw : Text)
    → text_eq raw literal ≡ false
    → with_no_oauth (codes "call" ∷ raw ∷ codes "--json" ∷ literal ∷ [])
      ≡ codes "call" ∷ raw ∷ codes "--json" ∷ no_oauth ∷ literal ∷ []
unfolding with_no_oauth
with_no_oauth-json raw h = ground (arith, text_eq-json, text_eq-call, text_eq_refl literal)

selector-not_literal :
    (raw : Text) {server tool : Text}
    → tool_selector raw ≡ some (server, tool)
    → text_eq raw literal ≡ false
selector-not_literal raw sel = elim (Bool-cases (text_eq raw literal)) [
  | inl same ↦ cc (selector-literal, (text_eq_iff raw literal).0 same)
  | inr other ↦ other
]

-- Whenever a call of a tool is let through at all, so is the one with `--json --`, and --no-oauth is
-- put between the flag and its value, where it is the value of --json.
pub json_literal_takes_no_oauth :
    (policy : McpCliSessionPolicy) (raw server tool : Text)
    → tool_selector raw ≡ some (server, tool)
    → is_ad_hoc server ≡ false
    → validate_exact_target policy server (some tool) ≡ none
    → validate_delegated_mcp_command (codes "call" ∷ raw ∷ codes "--json" ∷ literal ∷ []) policy
      ≡ command (codes "call" ∷ raw ∷ codes "--json" ∷ no_oauth ∷ literal ∷ [])
unfolding validate_delegated_mcp_command validate_call text_eq
json_literal_takes_no_oauth policy [] server tool sel safe target = cc (selector-nil)
json_literal_takes_no_oauth policy (c ∷ raw) server tool sel safe target = ground (
  arith,
  json_literal-free,
  json_literal-syntax,
  with_no_oauth-json (c ∷ raw) (selector-not_literal (c ∷ raw) sel),
)
