-- ===== src/Agents.antt =====
-- The contract of background agent runs and the `agent` tool (src/agents.ts).
pub mod Tool
use pi_recipes.Prelude.{ℕ, Text, Bool, true, false, List, Option}
use pi_recipes.Json.{Fields}

pub data AgentRunStatus : Type 0 where
  running completed failed interrupted closed : AgentRunStatus

pub record AgentNestedToolSummary : Type 0 where
  pub tool_name : Text
  pub verb : Text
  pub detail : Text
  pub tool_input : Option Fields

pub record AgentRunSummary : Type 0 where
  pub agent_run_id : Text
  pub invocation_name : Text
  pub agent_name : Text
  pub label : Text
  pub prompt : Text
  pub status : AgentRunStatus
  pub started_at : ℕ
  pub completed_at : Option ℕ
  pub last_activity_at : ℕ
  pub current_tool : Option Text
  pub nested_tools : List AgentNestedToolSummary
  pub output_preview : Option Text
  pub output : Option Text
  pub error : Option Text

-- status === "running"
abbrev pub is_running : AgentRunStatus → Bool
is_running running = true
is_running _ = false

abbrev pub is_closed : AgentRunStatus → Bool
is_closed closed = true
is_closed _ = false
