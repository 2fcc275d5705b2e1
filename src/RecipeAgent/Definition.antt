-- ===== src/RecipeAgent/Definition.antt =====
-- The definitions of agents, as a file declares them and as they are resolved
-- (src/recipe-agent.ts).
use pi_recipes.Prelude.{Text, Bool, List, [], ◌∷◌, Option, none, some}
use pi_recipes.McpPolicy.{ToolSelection}
use pi_recipes.RecipeModel.Config.{RecipeAgentModelConfig, ModelError}
use pi_recipes.RecipeSession.Values.{RecipeAgentSessionConfig, SessionError}

pub data InstructionsMode : Type 0 where
  append replace : InstructionsMode

pub record RecipeSystemInstructions : Type 0 where
  pub mode : InstructionsMode
  pub content : Text

pub record RecipeAgentMcpServer : Type 0 where
  pub tools : ToolSelection
  pub defer : Option (List Text)
  pub eager : Option (List Text)

pub data RecipeAgentMcpMode : Type 0 where
  cli tools_mode : RecipeAgentMcpMode

-- With whether the source was malformed (the mark INVALID_AGENT_MCP).
pub record RecipeAgentMcp : Type 0 where
  pub mode : Option RecipeAgentMcpMode
  pub servers : List (Text × RecipeAgentMcpServer)
  pub is_invalid : Bool

-- `model` is the projection of `model_config` in both records, so it is no field here.
pub record RecipeAgentDefinition : Type 0 where
  pub name : Text
  pub from : Option Text
  pub description : Option Text
  pub model_config : Option RecipeAgentModelConfig
  pub session_config : Option RecipeAgentSessionConfig
  pub tools : List Text
  pub mcp : Option RecipeAgentMcp
  pub skills : List Text
  pub subagents : List Text
  pub system_instructions : Option RecipeSystemInstructions
  pub declared_fields : List Text

pub record ParsedRecipeAgentDefinition : Type 0 where
  pub name : Text
  pub from : Option Text
  pub description : Option Text
  pub model_config : Option RecipeAgentModelConfig
  pub session_config : Option RecipeAgentSessionConfig
  pub tools : Option (List Text)
  pub mcp : Option RecipeAgentMcp
  pub skills : Option (List Text)
  pub subagents : Option (List Text)
  pub system_instructions : Option RecipeSystemInstructions
  pub declared_fields : List Text

pub data AgentFieldError : Type 0 where
  name_required description_not_string : AgentFieldError
  not_a_name not_kebab_case not_texts duplicate_entries : Text → AgentFieldError
  reserved_tools unsupported_instruction_keys : List Text → AgentFieldError
  instructions_not_object content_not_string mode_not_known : AgentFieldError

pub data AgentFileError : Type 0 where
  unsupported_agent_keys : List Text → AgentFileError
  invalid_field : AgentFieldError → AgentFileError
  both_model_and_ai : AgentFileError
  invalid_model : ModelError → AgentFileError
  invalid_session : SessionError → AgentFileError

-- A text that is given and not empty.
abbrev pub given : Option Text → Option Text
given none = none
given (some []) = none
given (some (c ∷ s)) = some (c ∷ s)

-- The name and the thinking level, if there is one of them.
unfoldable pub model_projection : Option RecipeAgentModelConfig → Option (Option Text × Option Text)
model_projection none = none
model_projection (some config) = elim (given config.name) [
  | some name ↦ some (some name, given config.thinking_level)
  | none ↦ elim (given config.thinking_level) [ some level ↦ some (none, some level) | none ↦ none ]
]
