-- ===== src/Agents/Tool/Results.antt =====
-- The input of the agent tool, and the texts and details of its results (src/agents.ts).
use pi_recipes.Prelude.{
  ℕ, Text, codes, text_eq, Bool, false, not, ◌&&◌, List, [], ◌∷◌, ◌++◌, Option, none, some, any,
  if◌then◌else◌,
}
use pi_recipes.Prelude.Texts.{trim, truthy, join}
use pi_recipes.Agents.{
  AgentRunStatus, running, completed, failed, interrupted, closed, AgentNestedToolSummary,
  AgentRunSummary, is_running,
}

-- What a method came to: the message of the error that it threw, or its result.
pub data Outcome (A : Type 0) : Type 0 where
  threw : Text → Outcome A
  gave : A → Outcome A

pub record AgentRunController (S : Type 0) : Type 0 where
  pub list : S → List AgentRunSummary
  pub get : Text → S → Option AgentRunSummary
  pub start : Text → Text → Option Text → S → Outcome AgentRunSummary × S
  pub wait : Text → S → Outcome AgentRunSummary × S
  pub message : Text → Text → S → Outcome AgentRunSummary × S
  pub interrupt : Text → S → Outcome AgentRunSummary × S
  pub close : Text → S → Outcome AgentRunSummary × S

pub data Action : Type 0 where
  start_action status_action wait_action message_action interrupt_action close_action : Action

pub record AgentToolInput : Type 0 where
  pub action : Option Action
  pub name : Option Text
  pub prompt : Option Text
  pub label : Option Text
  pub id : Option Text
  pub message : Option Text

-- The tool's own state beside the controller's: the runs it closed, and the ids it has passed to
-- acknowledgeCompletions.
pub record ToolState (S : Type 0) : Type 0 where
  pub runs : S
  pub closed_run_ids : List Text
  pub acknowledged : List Text

pub record Subtask : Type 0 where
  pub agent_name : Text
  pub label : Text
  pub task : Text
  pub nested_tools : List AgentNestedToolSummary
  pub transcript : List Text
  pub is_completed : Bool
  pub finish_reason : Text
  pub started_at : ℕ
  pub completed_at : Option ℕ

pub data Details : Type 0 where
  of_agent : AgentRunSummary → Subtask → Details
  of_agents : List AgentRunSummary → List Subtask → Details
  of_error : List AgentRunSummary → Details

pub record ToolResult : Type 0 where
  pub text : Text
  pub details : Details
  pub is_error : Bool

abbrev pub terminal : AgentRunSummary → Bool
terminal run = not (is_running run.status)

abbrev pub status_text : AgentRunStatus → Text
status_text running = codes "running"
status_text completed = codes "completed"
status_text failed = codes "failed"
status_text interrupted = codes "interrupted"
status_text closed = codes "closed"

pub run_line : AgentRunSummary → Text
run_line run = join [] (
    run.invocation_name
    ∷ codes " ("
    ∷ run.agent_run_id
    ∷ codes ") — "
    ∷ run.label
    ∷ codes " ["
    ∷ status_text run.status
    ∷ codes "]"
    ∷ [])

abbrev pub or_text : Option Text → Text → Text
or_text none other = other
or_text (some s) other = if truthy s then s else other

error_text : AgentRunSummary → Text
error_text run =
    let closing = codes "Agent " ++ (status_text run.status ++ codes ".") in
    elim run.error [
      | none ↦ closing
      | some message ↦ if truthy message then codes "Agent failed: " ++ message else closing
    ]

abbrev pub trimmed : Option Text → Option Text
trimmed none = none
trimmed (some s) = some (trim s)

pub status_block : AgentRunSummary → Text
unfolding run_line error_text
status_block run =
    if not (terminal run)
    then run_line run
    else run_line run ++ (codes "\n" ++ or_text (trimmed run.output) (error_text run))

-- The tool that runs now is shown last, unless a nested tool of its name is there.
nested_tools_of : AgentRunSummary → List AgentNestedToolSummary
nested_tools_of run = elim run.current_tool [
  | none ↦ run.nested_tools
  | some tool ↦
      if truthy tool
        && not (any (λ (t : AgentNestedToolSummary). text_eq t.tool_name tool) run.nested_tools)
      then run.nested_tools
        ++ (record { tool_name = tool; verb = tool; detail = []; tool_input = none } ∷ [])
      else run.nested_tools
]

abbrev transcript_of : Option Text → List Text
transcript_of none = []
transcript_of (some s) = if truthy s then s ∷ [] else []

finish_reason_of : AgentRunSummary → Text
finish_reason_of run = elim run.status [
  | completed ↦ codes "stop"
  | other ↦ elim run.error [ none ↦ status_text other | some message ↦ message ]
]

pub subtask : AgentRunSummary → Subtask
unfolding nested_tools_of finish_reason_of
subtask run = record {
  agent_name = run.invocation_name;
  label = run.label;
  task = run.prompt;
  nested_tools = nested_tools_of run;
  transcript = transcript_of run.output_preview;
  is_completed = terminal run;
  finish_reason = finish_reason_of run;
  started_at = run.started_at;
  completed_at = run.completed_at;
}

abbrev pub result : AgentRunSummary → Text → ToolResult
result run text = record { text = text; details = of_agent run (subtask run); is_error = false }

-- `!value` for an optional text
abbrev pub given : Option Text → Option Text
given none = none
given (some s) = if truthy s then some s else none

abbrev pub action_text : Action → Text
action_text start_action = codes "start"
action_text status_action = codes "status"
action_text wait_action = codes "wait"
action_text message_action = codes "message"
action_text interrupt_action = codes "interrupt"
action_text close_action = codes "close"
