-- ===== src/Agents/Tool.antt =====
-- The `agent` tool (createAgentTool of src/agents.ts) over any controller of runs. What an awaited
-- method of the controller came to is its outcome, and the state is that after it.
pub mod Results
pub mod Acknowledging
pub mod Closing
mod Tests
use pi_recipes.Prelude.{
  ℕ, Text, codes, text_eq, Bool, true, false, not, ◌&&◌, List, [], ◌∷◌, ◌++◌, map, Option, none,
  some, any, keep, if◌then◌else◌,
}
use pi_recipes.Prelude.Texts.{trim, truthy, join}
use pi_recipes.Agents.{
  AgentRunStatus, running, completed, failed, interrupted, closed, AgentNestedToolSummary,
  AgentRunSummary, is_running,
}
use pi_recipes.Agents.Tool.Results.{
  Outcome, AgentRunController, Action, AgentToolInput, ToolState, ToolResult, terminal, status_text,
  run_line, status_block, subtask, result, given, action_text, threw, gave, start_action,
  status_action, wait_action, message_action, interrupt_action, close_action, of_agents, of_error,
}

module _ {S : Type 0} (controller : AgentRunController S) (agents : List Text) where
  abbrev pub error_result : Text → ToolState S → ToolResult × ToolState S
  error_result text s =
      (record { text = text; details = of_error (controller.list s.runs); is_error = true }, s)

  abbrev pub acknowledge : AgentRunSummary → ToolState S → ToolState S
  acknowledge run s =
      if terminal run
      then record s { acknowledged = s.acknowledged ++ (run.agent_run_id ∷ []) }
      else s

  -- The `catch`, or what follows an awaited method.
  abbrev pub after :
      Action
      → (AgentRunSummary → ToolState S → ToolResult × ToolState S)
      → Outcome AgentRunSummary × S
      → ToolState S
      → ToolResult × ToolState S
  after action next (threw message, runs) s =
      error_result (codes "Agent " ++ (action_text action ++ (codes " failed: " ++ message)))
        (record s { runs = runs })
  after action next (gave run, runs) s = next run (record s { runs = runs })

  unfoldable pub start_run :
      Option Text → Option Text → Option Text → ToolState S → ToolResult × ToolState S
  start_run (some name) (some prompt) label s =
      if not (any (text_eq name) agents)
      then error_result
          (codes "Unknown agent \""
            ++ (name ++ (codes "\". Available: " ++ join (codes ", ") agents)))
          s
      else after start_action (λ run s'. (result run (codes "Started " ++ run_line run), s'))
          (controller.start name prompt label s.runs) s
  start_run _ _ label s = error_result (codes "Starting an agent requires name and prompt.") s

  abbrev pub acknowledge_all : List AgentRunSummary → ToolState S → ToolState S
  acknowledge_all runs s = record s {
    acknowledged =
        s.acknowledged
        ++ map (λ (r : AgentRunSummary). r.agent_run_id)
            (keep (λ (r : AgentRunSummary). terminal r) runs);
  }

  unfoldable pub status_all : ToolState S → ToolResult × ToolState S
  status_all s =
      let runs = controller.list s.runs in
      let text : Text = elim runs [
        | [] ↦ codes "No agent runs."
        | run ∷ rest ↦ join (codes "\n\n") (map status_block (run ∷ rest))
      ] in
      (
        record { text = text; details = of_agents runs (map subtask runs); is_error = false },
        acknowledge_all runs s,
      )

  -- The actions on one run; `start` does not come here.
  unfoldable pub manage : Action → Text → Option Text → ToolState S → ToolResult × ToolState S
  manage start_action id message s = error_result [] s
  manage status_action id message s = elim (controller.get id s.runs) [
    | none ↦ error_result (codes "Unknown agent run: " ++ id) s
    | some run ↦ (result run (status_block run), acknowledge run s)
  ]
  manage wait_action id message s =
      after wait_action (λ run s'. (result run (status_block run), acknowledge run s'))
        (controller.wait id s.runs) s
  manage message_action id none s = error_result (codes "message requires message") s
  manage message_action id (some text) s =
      after message_action (λ run s'. (result run (codes "Sent message to " ++ run_line run), s'))
        (controller.message id text s.runs) s
  manage interrupt_action id message s =
      after interrupt_action
        (λ run s'. (
          result run (elim run.status [
            | interrupted ↦ codes "Interrupted " ++ run_line run
            | other ↦
                codes "No interrupt sent: "
                ++ (run_line run ++ (codes " is already " ++ (status_text other ++ codes ".")))
          ]),
          s',
        ))
        (controller.interrupt id s.runs) s
  manage close_action id message s =
      after close_action
        (λ run s'. (
          result run (codes "Closed " ++ run_line run),
          record s' {
            closed_run_ids = id ∷ s'.closed_run_ids;
            acknowledged = s'.acknowledged ++ (id ∷ []);
          },
        ))
        (controller.close id s.runs) s

  abbrev pub or_start : Option Action → Action
  or_start none = start_action
  or_start (some action) = action

  unfoldable pub with_id : Action → AgentToolInput → ToolState S → ToolResult × ToolState S
  with_id action params s = elim (given params.id) [
    | none ↦ error_result (action_text action ++ codes " requires id") s
    | some id ↦
        if any (text_eq id) s.closed_run_ids
        then error_result (codes "Agent run already closed: " ++ id) s
        else manage action id (given params.message) s
  ]

  -- `execute`; the calls of onUpdate while a run goes on are not part of it.
  unfoldable pub execute : AgentToolInput → ToolState S → ToolResult × ToolState S
  execute params s = elim (or_start params.action) [
    | start_action ↦ start_run (given params.name) (given params.prompt) params.label s
    | status_action ↦ elim (given params.id) [
      | none ↦ status_all s
      | some id ↦ with_id status_action params s
    ]
    | action ↦ with_id action params s
  ]

  -- Calls of the tool, one after the other.
  unfoldable pub execute_all : List AgentToolInput → ToolState S → ToolState S
  execute_all [] s = s
  execute_all (params ∷ rest) s = execute_all rest (execute params s).1
