-- ===== src/RecipeAgent.antt =====
-- The agents of a recipe (src/recipe-agent.ts): what is read of the parsed YAML of each file.
-- `upper` and `lower` stand for toUpperCase on one character and toLowerCase.
pub mod Definition
pub mod Mcp
pub mod Resolution
pub mod Validation
pub mod Chains
pub mod Depth
pub mod Loading
pub mod Agreement
pub mod Granting
pub mod Malformed
pub mod HostOwned
pub mod Specs
mod Tests
mod ReadingTests
use pi_recipes.Prelude.{
  ℕ, Text, codes, text_eq, Bool, true, false, not, List, [], ◌∷◌, Option, none, some, keep, any,
  map, if◌then◌else◌, ◌==◌,
}
use pi_recipes.Prelude.Texts.{trim, truthy, has}
use pi_recipes.Prelude.Results.{Result, returns, throws, ◌>>=◌, ◌>>◌}
use pi_recipes.Json.{Json, str, arr, obj, Items, nil, item, Fields, get, keys}
use pi_recipes.RecipeModel.{is_alnum, parse_recipe_agent_ai_config, parse_recipe_agent_model_config}
use pi_recipes.RecipeModel.Config.{RecipeAgentModelConfig, ModelError}
use pi_recipes.RecipeSession.{parse_recipe_agent_session_config}
use pi_recipes.RecipeSession.Values.{SessionError, RecipeAgentSessionConfig}
use pi_recipes.RecipePackage.Selection.{has_own, record_of}
use Definition.{
  ParsedRecipeAgentDefinition, AgentFieldError, name_required, description_not_string, not_a_name,
  not_kebab_case, not_texts, duplicate_entries, reserved_tools, unsupported_instruction_keys,
  instructions_not_object, content_not_string, mode_not_known, AgentFileError,
  unsupported_agent_keys, invalid_field, both_model_and_ai, invalid_model, invalid_session,
  RecipeSystemInstructions, InstructionsMode, append, replace,
}
use Mcp.{parse_mcp, trimmed_array, has_duplicates}

abbrev config_fields : List Text
config_fields =
    codes "description"
    ∷ codes "model"
    ∷ codes "ai"
    ∷ codes "session"
    ∷ codes "tools"
    ∷ codes "mcp"
    ∷ codes "skills"
    ∷ codes "subagents"
    ∷ codes "system_instructions"
    ∷ []

abbrev agent_yaml_keys : List Text
agent_yaml_keys = codes "name" ∷ codes "from" ∷ config_fields

-- What may follow in a name of PORTABLE_AGENT_NAME, with whether a dash stands before.
unfoldable pub kebab_rest : Bool → Text → Bool
kebab_rest after_dash [] = not after_dash
kebab_rest after_dash (c ∷ s) =
    let word = kebab_rest false s in
    let next = kebab_rest true s in
    if is_alnum c then word else if c == b'-' then (if after_dash then false else next) else false

-- /^[a-z0-9]+(?:-[a-z0-9]+)*$/
abbrev pub is_portable_name : Text → Bool
is_portable_name name = kebab_rest true name

abbrev all_given : Items → Bool
all_given nil = true
all_given (item (str s) xs) = if truthy (trim s) then all_given xs else false
all_given (item _ xs) = false

abbrev is_non_empty_string_array : Json → Bool
is_non_empty_string_array (arr items) = all_given items
is_non_empty_string_array _ = false

-- The first error, if there is one.
abbrev or_error {ℓ} : {A : Type ℓ} → Option A → Option A → Option A
or_error none other = other
or_error (some e) other = some e

unfoldable pub name_error : Text → Option Json → Option AgentFieldError
name_error key none = none
name_error key (some (str s)) =
    if not (truthy (trim s))
    then some (not_a_name key)
    else if not (is_portable_name s)
    then some (not_kebab_case key)
    else none
name_error key (some _) = some (not_a_name key)

abbrev description_error : Option Json → Option AgentFieldError
description_error none = none
description_error (some (str s)) = none
description_error (some _) = some description_not_string

unfoldable pub list_error : Text → Option Json → Option AgentFieldError
list_error key none = none
list_error key (some value) =
    if not (is_non_empty_string_array value)
    then some (not_texts key)
    else if has_duplicates (trimmed_array (some value))
    then some (duplicate_entries key)
    else none

unfoldable pub reserved_error : Option Json → Option AgentFieldError
reserved_error tools = elim (keep (text_eq (codes "agent")) (trimmed_array tools)) [
  | [] ↦ none
  | tool ∷ rest ↦ some (reserved_tools (tool ∷ rest))
]

abbrev is_text : Option Json → Bool
is_text (some (str s)) = true
is_text _ = false

abbrev mode_error : Option Json → Option AgentFieldError
mode_error none = none
mode_error (some (str s)) =
    if text_eq s (codes "append")
    then none
    else if text_eq s (codes "replace")
    then none
    else some mode_not_known
mode_error (some _) = some mode_not_known

unfoldable pub instructions_error : Option Json → Option AgentFieldError
instructions_error none = none
instructions_error (some (obj instructions)) =
    elim (keep (λ key. not (has key (codes "mode" ∷ codes "content" ∷ []))) (keys instructions)) [
      | key ∷ rest ↦ some (unsupported_instruction_keys (key ∷ rest))
      | [] ↦
          if not (is_text (get (codes "content") instructions))
          then some content_not_string
          else mode_error (get (codes "mode") instructions)
    ]
instructions_error (some _) = some instructions_not_object

unfoldable pub invalid_agent_field : Fields → Option AgentFieldError
invalid_agent_field data_object =
    if not (has_own (codes "name") data_object)
    then some name_required
    else or_error (name_error (codes "name") (get (codes "name") data_object)) (
        or_error (name_error (codes "from") (get (codes "from") data_object)) (
          or_error (description_error (get (codes "description") data_object)) (
            or_error (list_error (codes "tools") (get (codes "tools") data_object)) (
              or_error (list_error (codes "skills") (get (codes "skills") data_object)) (
                or_error (list_error (codes "subagents") (get (codes "subagents") data_object)) (
                  or_error (reserved_error (get (codes "tools") data_object))
                    (instructions_error (get (codes "system_instructions") data_object))))))))

abbrev mode_of_instructions : Option Json → InstructionsMode
mode_of_instructions (some (str s)) = if text_eq s (codes "replace") then replace else append
mode_of_instructions _ = append

unfoldable pub parse_system_instructions : Option Json → Option RecipeSystemInstructions
parse_system_instructions value = elim (get (codes "content") (record_of value)) [
  | some (str s) ↦ some (record {
    mode = mode_of_instructions (get (codes "mode") (record_of value));
    content = trim s;
  })
  | _ ↦ none
]

abbrev text_of : Option Json → Text
text_of (some (str s)) = s
text_of _ = []

abbrev text_option : Option Json → Option Text
text_option (some (str s)) = some s
text_option _ = none

abbrev list_of : Option Json → Option (List Text)
list_of none = none
list_of (some v) = some (trimmed_array (some v))

abbrev pub or_fail {ℓ} : {E F A : Type ℓ} → (E → F) → Result E A → Result F A
or_fail wrap (returns a) = returns a
or_fail wrap (throws e) = throws (wrap e)

-- By whether there is a `model:` block, and what the two blocks hold.
abbrev pub agent_model_of :
    (ℕ → ℕ)
    → Bool
    → Option Json
    → Option Json
    → Result AgentFileError (Option RecipeAgentModelConfig)
agent_model_of upper has_model model none =
    or_fail invalid_model (parse_recipe_agent_model_config model)
agent_model_of upper true model (some ai) = throws both_model_and_ai
agent_model_of upper false model (some ai) =
    or_fail invalid_model (parse_recipe_agent_ai_config upper (some ai))

unfoldable pub parse_agent_model :
    (ℕ → ℕ) → Fields → Result AgentFileError (Option RecipeAgentModelConfig)
parse_agent_model upper data_object =
    agent_model_of upper (has_own (codes "model") data_object) (get (codes "model") data_object)
      (get (codes "ai") data_object)

unfoldable pub check_agent_keys : Fields → Result AgentFileError (Unit {0})
check_agent_keys data_object =
    elim (keep (λ key. not (has key agent_yaml_keys)) (keys data_object)) [
      | [] ↦ returns tt
      | key ∷ rest ↦ throws (unsupported_agent_keys (key ∷ rest))
    ]

unfoldable pub check_agent_fields : Fields → Result AgentFileError (Unit {0})
check_agent_fields data_object = elim (invalid_agent_field data_object) [
  | none ↦ returns tt
  | some e ↦ throws (invalid_field e)
]

-- One round of the loop of `readRecipeAgentSources`.
unfoldable pub read_recipe_agent_source :
    (ℕ → ℕ) → (Text → Text) → Fields → Result AgentFileError ParsedRecipeAgentDefinition
read_recipe_agent_source upper lower data_object = do
  check_agent_keys data_object
  check_agent_fields data_object
  model_config ← parse_agent_model upper data_object
  session_config ←
      or_fail invalid_session
        (parse_recipe_agent_session_config (get (codes "session") data_object))
  returns (record {
    name = text_of (get (codes "name") data_object);
    from = text_option (get (codes "from") data_object);
    description = text_option (get (codes "description") data_object);
    model_config = model_config;
    session_config = session_config;
    tools = list_of (get (codes "tools") data_object);
    mcp = parse_mcp lower (get (codes "mcp") data_object);
    skills = list_of (get (codes "skills") data_object);
    subagents = list_of (get (codes "subagents") data_object);
    system_instructions = parse_system_instructions (get (codes "system_instructions") data_object);
    declared_fields = keep (λ key. has_own key data_object) config_fields;
  })

-- The sources of the files, in order; a file with an error has none.
abbrev pub add_source :
    Result AgentFileError ParsedRecipeAgentDefinition
    → List ParsedRecipeAgentDefinition
    → List ParsedRecipeAgentDefinition
add_source (returns source) sources = source ∷ sources
add_source (throws error) sources = sources

unfoldable pub read_recipe_agent_sources :
    (ℕ → ℕ) → (Text → Text) → List Fields → List ParsedRecipeAgentDefinition
read_recipe_agent_sources upper lower [] = []
read_recipe_agent_sources upper lower (file ∷ rest) =
    add_source (read_recipe_agent_source upper lower file)
      (read_recipe_agent_sources upper lower rest)
