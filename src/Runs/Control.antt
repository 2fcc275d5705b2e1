-- ===== src/Runs/Control.antt =====
-- The methods of the controller, and histories of them (src/run-controller.ts).
use pi_recipes.Prelude.{
  ℕ, Text, text_eq, Bool, not, List, [], ◌∷◌, ◌++◌, Option, none, some, length, take, get_elem?,
  is_some, keep, if◌then◌else◌, ◌==◌, ◌&&◌,
}
use pi_recipes.Agents.{running, interrupted, closed, AgentRunSummary, is_running, is_closed}
use pi_recipes.Runs.{ChildRun, Controller, touch, touch_returns, set_object, execute_prompt}
use mathlib.Core.Option

-- runs.get(id)
unfoldable pub find_ref : Text → List (Text × ℕ) → Option ℕ
find_ref id [] = none
find_ref id ((key, ref) ∷ rest) = if text_eq key id then some ref else find_ref id rest

-- runs.set(id, …)
unfoldable pub set_ref : Text → ℕ → List (Text × ℕ) → List (Text × ℕ)
set_ref id ref [] = (id, ref) ∷ []
set_ref id ref ((key, old) ∷ rest) =
    if text_eq key id then (key, ref) ∷ rest else (key, old) ∷ set_ref id ref rest

abbrev or_else : Option Text → Text → Text
or_else none t = t
or_else (some s) t = s

abbrev pub new_run : Text → Text → Text → Option Text → (AgentRunSummary → Bool) → ℕ → ChildRun
new_run id name prompt label on_update now = record {
  summary = record {
    agent_run_id = id;
    invocation_name = name;
    agent_name = name;
    label = or_else label (take 80 prompt);
    prompt = prompt;
    status = running;
    started_at = now;
    completed_at = none;
    last_activity_at = now;
    current_tool = none;
    nested_tools = [];
    output_preview = none;
    output = none;
    error = none;
  };
  handle = none;
  settled = 0;
  on_update = on_update;
  waiters = [];
}

-- `start`; `id` is the one that randomUUID gave.
unfoldable pub start :
    Text → Text → Text → Option Text → (AgentRunSummary → Bool) → ℕ → Controller → Controller
unfolding set_ref
start id name prompt label on_update now c =
    let ref = length c.objects in
    let run = new_run id name prompt label on_update now in
    execute_prompt ref run prompt
      (record c { objects = c.objects ++ run ∷ []; runs = set_ref id ref c.runs })

-- What a part of a method comes to: it returns, it throws, or it goes on after an `await`.
pub data Reply : Type 0 where
  returned : AgentRunSummary → Reply
  run_not_found run_is_closed wait_aborted update_threw : Reply
  awaits_settled awaits_steer awaits_wake : ℕ → Reply

abbrev pub restart_patch : AgentRunSummary → AgentRunSummary
restart_patch s = record s {
  status = running;
  completed_at = none;
  error = none;
  output = none;
  output_preview = none;
  current_tool = none;
}

-- `message` from its second test on; it is reached at once, or after `await run.settled`.
unfoldable pub message_rest : ℕ → ChildRun → Text → ℕ → Controller → Reply × Controller
message_rest ref run message now c =
    if is_running run.summary.status && is_some run.handle
    then (awaits_steer ref, c)
    else let run' = touch restart_patch now run in
      if touch_returns run'
      then (returned run'.summary, execute_prompt ref run' message c)
      else (update_threw, set_object ref run' c)

unfoldable pub message_run : ℕ → ChildRun → Text → ℕ → Controller → Reply × Controller
message_run ref run message now c =
    if is_closed run.summary.status
    then (run_is_closed, c)
    else if is_running run.summary.status && not (is_some run.handle)
    then (awaits_settled ref, c)
    else message_rest ref run message now c

abbrev pub interrupt_patch : ℕ → AgentRunSummary → AgentRunSummary
interrupt_patch now s = record s { status = interrupted; completed_at = some now }

-- `interrupt` up to `await session.abort()`, or to a throw of `touch`; nothing follows but the return.
unfoldable pub interrupt_run : ℕ → ChildRun → ℕ → Controller → Controller
interrupt_run ref run now c =
    if is_running run.summary.status
    then set_object ref (touch (interrupt_patch now) now run) c
    else c

abbrev or_now : Option ℕ → ℕ → ℕ
or_now none now = now
or_now (some t) now = t

abbrev pub close_patch : ℕ → AgentRunSummary → AgentRunSummary
close_patch now s = record s { status = closed; completed_at = some (or_now s.completed_at now) }

-- `close` up to its first `await`, or to a throw of `touch`.
unfoldable pub close_run : ℕ → ChildRun → ℕ → Controller → Controller
close_run ref run now c =
    if is_closed run.summary.status then c else set_object ref (touch (close_patch now) now run) c

-- `close` after the session's disposal.
unfoldable pub close_rest : ℕ → ChildRun → Controller → Controller
close_rest ref run c = set_object ref (record run { handle = none }) c

-- `wait` up to its `await`; `w` names the call. Then a wake-up returns the run's summary.
unfoldable pub wait_run : ℕ → ChildRun → ℕ → Bool → Controller → Reply × Controller
wait_run ref run w aborted c =
    if is_running run.summary.status
    then (if aborted
        then (wait_aborted, c)
        else (awaits_wake ref, set_object ref (record run { waiters = run.waiters ++ w ∷ [] }) c))
    else (returned run.summary, c)

-- The signal aborts a pending `wait`.
unfoldable pub abort_wait : ℕ → ChildRun → ℕ → Controller → Controller
abort_wait ref run w c =
    set_object ref (record run { waiters = keep (λ x. not (x == w)) run.waiters }) c

-- The tool that a session event says is running, or none.
unfoldable pub tool_activity : ℕ → ChildRun → Option Text → ℕ → Controller → Controller
tool_activity ref run tool now c =
    set_object ref (touch (λ s. record s { current_tool = tool }) now run) c

-- `run` found by id, with the run's place; or the error of `requireRun`.
require_run : Text → Controller → Option (ℕ × ChildRun)
unfolding find_ref
require_run id c = elim (find_ref id c.runs) [
  | none ↦ none
  | some ref ↦ Option.map (λ run. (ref, run)) (get_elem? c.objects ref)
]

-- get and list
pub get : Text → Controller → Option AgentRunSummary
unfolding require_run
get id c = elim (require_run id c) [ none ↦ none | some (ref, run) ↦ some run.summary ]

summaries : List (Text × ℕ) → List ChildRun → List AgentRunSummary
summaries [] objects = []
summaries ((id, ref) ∷ rest) objects = elim (get_elem? objects ref) [
  | none ↦ summaries rest objects
  | some run ↦ run.summary ∷ summaries rest objects
]

pub list : Controller → List AgentRunSummary
unfolding summaries
list c = summaries c.runs c.objects

-- The methods by id.
pub message : Text → Text → ℕ → Controller → Reply × Controller
unfolding require_run
message id text now c = elim (require_run id c) [
  | none ↦ (run_not_found, c)
  | some (ref, run) ↦ message_run ref run text now c
]

pub interrupt : Text → ℕ → Controller → Option Controller
unfolding require_run
interrupt id now c = elim (require_run id c) [
  | none ↦ none
  | some (ref, run) ↦ some (interrupt_run ref run now c)
]

pub close : Text → ℕ → Controller → Option Controller
unfolding require_run
close id now c = elim (require_run id c) [
  | none ↦ none
  | some (ref, run) ↦ some (close_run ref run now c)
]

pub wait : Text → ℕ → Bool → Controller → Reply × Controller
unfolding require_run
wait id w aborted c = elim (require_run id c) [
  | none ↦ (run_not_found, c)
  | some (ref, run) ↦ wait_run ref run w aborted c
]
