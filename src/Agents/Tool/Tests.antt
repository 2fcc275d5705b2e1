-- ===== src/Agents/Tool/Tests.antt =====
-- Calls of the tool on a controller with one run.
use pi_recipes.Prelude.{
  text_eq, codes, true, false, List, [], ◌∷◌, none, some, any, ◌≡◌, ◌⊎◌, refl, arith,
}
use pi_recipes.Agents.{completed, AgentRunSummary}
use pi_recipes.Agents.Tool.{execute, execute_all}
use pi_recipes.Agents.Tool.Results.{
  Action, status_action, close_action, gave, AgentRunController, AgentToolInput, ToolState,
}
use pi_recipes.Agents.Tool.Acknowledging.{shows_end, execute_acknowledges}
use pi_recipes.Agents.Tool.Closing.{closed_run_refused}

abbrev done_run : AgentRunSummary
done_run = record {
  agent_run_id = codes "r1";
  invocation_name = codes "scout";
  agent_name = codes "scout";
  label = codes "look";
  prompt = codes "look";
  status = completed;
  started_at = 1;
  completed_at = some 2;
  last_activity_at = 2;
  current_tool = none;
  nested_tools = [];
  output_preview = none;
  output = some (codes "done");
  error = none;
}

abbrev one_run : AgentRunController (List AgentRunSummary)
one_run = record {
  list = λ s. s;
  get = λ id s. some done_run;
  start = λ name prompt label s. (gave done_run, done_run ∷ s);
  wait = λ id s. (gave done_run, s);
  message = λ id text s. (gave done_run, s);
  interrupt = λ id s. (gave done_run, s);
  close = λ id s. (gave done_run, []);
}

abbrev call_of : Action → AgentToolInput
call_of action = record {
  action = some action;
  name = none;
  prompt = none;
  label = none;
  id = some (codes "r1");
  message = none;
}

abbrev open_state : ToolState (List AgentRunSummary)
open_state = record { runs = done_run ∷ []; closed_run_ids = []; acknowledged = [] }

closes_run : (execute one_run [] (call_of close_action) open_state).0.is_error ≡ false
unfolding execute pi_recipes.Agents.Tool.with_id pi_recipes.Agents.Tool.manage text_eq
closes_run = refl

acknowledges :
    any
      (text_eq (codes "r1"))
      (execute one_run [] (call_of status_action) open_state).1.acknowledged
    ≡ true
unfolding execute pi_recipes.Agents.Tool.with_id pi_recipes.Agents.Tool.manage text_eq
acknowledges = refl

abbrev later_state : ToolState (List AgentRunSummary)
later_state = execute_all one_run [] (call_of close_action ∷ call_of status_action ∷ []) open_state

closed_run_refused_example :
    ((execute one_run [] (call_of status_action) later_state).0.is_error ≡ true)
    × ((execute one_run [] (call_of status_action) later_state).1 ≡ later_state)
closed_run_refused_example =
    closed_run_refused one_run [] (codes "r1") (call_of close_action) (call_of status_action ∷ [])
      open_state (call_of status_action) status_action refl refl closes_run refl refl
      (λ e. ground arith)

execute_acknowledges_example :
    (any (text_eq (codes "r1")) open_state.acknowledged ≡ true)
    ⊎ (shows_end (codes "r1") (execute one_run [] (call_of status_action) open_state).0 ≡ true)
    ⊎ (some status_action ≡ some close_action)
      × (some (codes "r1") ≡ some (codes "r1"))
      × ((execute one_run [] (call_of status_action) open_state).0.is_error ≡ false)
execute_acknowledges_example =
    execute_acknowledges one_run [] (codes "r1") (call_of status_action) open_state acknowledges
