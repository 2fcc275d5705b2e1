-- ===== src/CliPolicy/Soundness.antt =====
-- What a delegated command that is let through has been checked for.
use pi_recipes.Prelude.{
  Text, codes, text_eq, text_eq_iff, true, false, ◌≡◌, inl, inr, ◌⊎◌, List, [], ◌∷◌, Option, none,
  some, find, map, All, arith, Option-cases,
}
use pi_recipes.McpPolicy.{McpSessionServer, mcp_session_allows_tool}
use pi_recipes.CliPolicy.{validate_call, call_syntax_error, validate_delegated_mcp_command}
use pi_recipes.CliPolicy.Listing.{
  McpCliSessionPolicy, server_of, command, is_forbidden, flag_name, tool_selector, options_of,
  with_no_oauth, forbidden_flag, validate_exact_target, list_target, list_target_error,
  list_output_mode_error, server_part, tool_part, validate_list,
}
use pi_recipes.CliPolicy.Arguments.{SafeCall, syntax-SafeCall}

-- The session has the server, and lets the tool through, if one is named.
pub record IsTarget (policy : McpCliSessionPolicy) (server : Text) (tool : Option Text)
    : Type 0 where
  pub configured : McpSessionServer
  pub found : server_of server policy ≡ some configured
  pub allowed : (t : Text) → tool ≡ some t → mcp_session_allows_tool configured t ≡ true

validate_exact_target-IsTarget :
    (policy : McpCliSessionPolicy) (server : Text) (tool : Option Text)
    → validate_exact_target policy server tool ≡ none
    → IsTarget policy server tool
unfolding validate_exact_target
validate_exact_target-IsTarget policy server none e =
    elim (Option-cases (server_of server policy)) [
      | inl missing ↦ ground arith
      | inr (s, found) ↦ record { configured = s; found = found; allowed = λ t h. cc }
    ]
validate_exact_target-IsTarget policy server (some u) e =
    elim (Option-cases (server_of server policy)) [
      | inl missing ↦ ground arith
      | inr (s, found) ↦ record { configured = s; found = found; allowed = λ t h. ground arith }
    ]

-- No option before the literal `--` is a forbidden one.
abbrev pub HasNoForbidden : List Text → Type 0
HasNoForbidden args = All (λ a. is_forbidden (flag_name a) ≡ false) (options_of args)

find-All :
    (xs : List Text)
    → find is_forbidden (map flag_name xs) ≡ none
    → All (λ a. is_forbidden (flag_name a) ≡ false) xs
find-All [] e = tt
find-All (x ∷ xs) e = (ground arith, find-All xs (ground arith))

-- A call that is let through.
pub record IsSafeCall (policy : McpCliSessionPolicy) (raw : Text) (args out : List Text)
    : Type 0 where
  pub server : Text
  pub tool : Text
  pub selector : tool_selector raw ≡ some (server, tool)
  pub target : IsTarget policy server (some tool)
  pub options : HasNoForbidden args
  pub arguments : SafeCall args
  pub result : out ≡ with_no_oauth (codes "call" ∷ raw ∷ args)

validate_call-IsSafeCall :
    (raw : Text) (args out : List Text) (policy : McpCliSessionPolicy)
    → validate_call (codes "call") (raw ∷ args) policy ≡ command out
    → IsSafeCall policy raw args out
unfolding validate_call
validate_call-IsSafeCall raw args out policy e = elim (Option-cases (tool_selector raw)) [
  | inl missing ↦ ground arith
  | inr ((server, tool), selected) ↦
      elim (Option-cases (validate_exact_target policy server (some tool))) [
        | inr (problem, found) ↦ ground arith
        | inl valid ↦ elim (Option-cases (forbidden_flag args)) [
          | inr (flag, found) ↦ ground arith
          | inl free ↦ elim (Option-cases (call_syntax_error false args)) [
            | inr (problem, found) ↦ ground arith
            | inl parsed ↦ record {
              server = server;
              tool = tool;
              selector = selected;
              target = validate_exact_target-IsTarget policy server (some tool) valid;
              options = find-All (options_of args) (unfold forbidden_flag in free);
              arguments = syntax-SafeCall args parsed;
              result = ground arith;
            }
          ]
        ]
      ]
]

-- A call that is let through names a tool by server and name, of a server that the session has,
-- and that both the package and an agent allow; its arguments are assignments and the flags
-- --json, --output and --timeout only, no forbidden option stands before a literal `--`, and what
-- is run is the command itself with --no-oauth put in.
pub call_sound :
    (policy : McpCliSessionPolicy) (raw : Text) (args out : List Text)
    → validate_delegated_mcp_command (codes "call" ∷ raw ∷ args) policy ≡ command out
    → IsSafeCall policy raw args out
unfolding validate_delegated_mcp_command text_eq
call_sound policy raw args out e = validate_call-IsSafeCall raw args out policy e

-- A listing that is let through.
pub record IsSafeList (policy : McpCliSessionPolicy) (args out : List Text) : Type 0 where
  pub target :
      (t : Text)
      → list_target args ≡ some t
      → IsTarget policy (server_part (tool_selector t) t) (tool_part (tool_selector t))
  pub options : HasNoForbidden args
  pub result : out ≡ with_no_oauth (codes "list" ∷ args)

list_target-IsTarget :
    (policy : McpCliSessionPolicy) (args : List Text)
    → list_target_error policy args ≡ none
    → (t : Text) → list_target args ≡ some t
    → IsTarget policy (server_part (tool_selector t) t) (tool_part (tool_selector t))
unfolding list_target_error
list_target-IsTarget policy args e t found =
    validate_exact_target-IsTarget policy _ _ (rw (found, list_target_error) at e)

validate_list-IsSafeList :
    (args out : List Text) (policy : McpCliSessionPolicy)
    → validate_list (codes "list") args policy ≡ command out
    → IsSafeList policy args out
unfolding validate_list
validate_list-IsSafeList args out policy e = elim (Option-cases (forbidden_flag args)) [
  | inr (flag, found) ↦ ground arith
  | inl free ↦ elim (Option-cases (list_output_mode_error args)) [
    | inr (problem, found) ↦ ground arith
    | inl one_mode ↦ elim (Option-cases (list_target_error policy args)) [
      | inr (problem, found) ↦ ground arith
      | inl valid ↦ record {
        target = list_target-IsTarget policy args valid;
        options = find-All (options_of args) (unfold forbidden_flag in free);
        result = ground arith;
      }
    ]
  ]
]

-- A listing that is let through has no target, or one whose server the session has, and whose tool,
-- if it names one, the session lets through; no forbidden option stands before a literal `--`, and
-- what is run is the command itself with --no-oauth put in.
pub list_sound :
    (policy : McpCliSessionPolicy) (args out : List Text)
    → validate_delegated_mcp_command (codes "list" ∷ args) policy ≡ command out
    → IsSafeList policy args out
unfolding validate_delegated_mcp_command text_eq
list_sound policy args out e = validate_list-IsSafeList args out policy e

-- Only `list` and `call` are ever let through.
pub only_list_and_call :
    (policy : McpCliSessionPolicy) (name : Text) (rest out : List Text)
    → validate_delegated_mcp_command (name ∷ rest) policy ≡ command out
    → (name ≡ codes "list") ⊎ (name ≡ codes "call")
unfolding validate_delegated_mcp_command
only_list_and_call policy name rest out e =
    ground (arith, text_eq_iff name (codes "list"), text_eq_iff name (codes "call"))
