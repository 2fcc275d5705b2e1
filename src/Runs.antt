-- ===== src/Runs.antt =====
-- The in-process controller of background child runs (src/run-controller.ts). Its asynchronous
-- methods are split at their `await`s: each part is a function of the controller's state, and a
-- history is any order of such parts (Runs/Events). What an `await` waits for, a session or a
-- model, is an argument of the part that follows it.
pub mod Slots
pub mod Control
pub mod Events
pub mod Held
pub mod Settling
pub mod Closing
pub mod Reopening
mod Tests
use pi_recipes.Prelude.{
  ℕ, zero, suc, ◌+◌, Text, text_eq, Bool, true, false, List, [], ◌∷◌, ◌++◌, Option, none, some,
  length, take, get_elem?, set, ◌&&◌, if◌then◌else◌,
}
use pi_recipes.Prelude.Texts.{truthy}
use pi_recipes.Agents.{
  AgentRunStatus, running, completed, failed, interrupted, closed, AgentRunSummary, is_running,
}
use Slots.{SlotPool, new_slots, acquire, release, resume, mem}

-- `handle` is the live session; `settled` is the invocation of `executePrompt` whose promise the
-- field holds; `waiters` are the pending calls of `wait`. `on_update` tells whether onUpdate returns
-- for a summary, be it a promise that is rejected later, or throws at once; one that is not given
-- returns.
pub record ChildRun : Type 0 where
  pub summary : AgentRunSummary
  pub handle : Option ℕ
  pub settled : ℕ
  pub on_update : AgentRunSummary → Bool
  pub waiters : List ℕ

-- Where an invocation of `executePrompt` stands: queued for a slot, past `acquireSlot`, awaiting
-- the session, awaiting the prompt, awaiting the disposal of a session that came too late, over.
pub data Phase : Type 0 where
  waiting granted creating prompting disposing done : Phase

pub record Task : Type 0 where
  pub run : ℕ
  pub prompt : Text
  pub phase : Phase

-- Runs are objects: `runs` maps an id to the place of its object in `objects`.
pub record Controller : Type 0 where
  pub slots : SlotPool
  pub objects : List ChildRun
  pub runs : List (Text × ℕ)
  pub tasks : List Task

unfoldable pub create_in_process_run_controller : Option ℕ → Controller
create_in_process_run_controller concurrency = record {
  slots = new_slots concurrency;
  objects = [];
  runs = [];
  tasks = [];
}

-- The preview is cut from an output that is not empty; no patch of the program gives a preview.
preview : AgentRunSummary → AgentRunSummary
preview s = elim s.output [
  | none ↦ s
  | some output ↦ if truthy output then record s { output_preview = some (take 400 output) } else s
]

-- `touch`: the patch, the time and the preview, the call of onUpdate, and every waiter is woken once
-- the run has settled, unless that call threw: then nobody is woken, and `touch` throws.
unfoldable pub touch : (AgentRunSummary → AgentRunSummary) → ℕ → ChildRun → ChildRun
unfolding preview
touch patch now run =
    let s = preview (record (patch run.summary) { last_activity_at = now }) in
    record run {
      summary = s;
      waiters =
          if is_running s.status then run.waiters else if run.on_update s then [] else run.waiters;
    }

-- `touch` has left the run like this, and returned; else it threw.
abbrev pub touch_returns : ChildRun → Bool
touch_returns run = run.on_update run.summary

abbrev pub set_object : ℕ → ChildRun → Controller → Controller
set_object ref run c = record c { objects = set c.objects ref run }

abbrev pub set_phase : ℕ → Task → Phase → Controller → Controller
set_phase t task phase c = record c { tasks = set c.tasks t (record task { phase = phase }) }

-- The `finally` of `executePrompt`.
unfoldable pub finish : ℕ → Task → Controller → Controller
finish t task c = set_phase t task done (record c { slots = release c.slots })

-- `executePrompt` up to its first `await`; the new invocation is the run's `settled`.
unfoldable pub execute_prompt : ℕ → ChildRun → Text → Controller → Controller
execute_prompt ref run prompt c =
    let t = length c.tasks in
    let (slots, granted_now) = acquire t c.slots in
    let phase = if granted_now then granted else waiting in
    record c {
      slots = slots;
      objects = set c.objects ref (record run { settled = t });
      tasks = c.tasks ++ record { run = ref; prompt = prompt; phase = phase } ∷ [];
    }

-- The continuation of `await acquireSlot()`, for a waiter that a release has woken.
abbrev pub is_waiting : Phase → Bool
is_waiting waiting = true
is_waiting _ = false

unfoldable pub wake : ℕ → Controller → Controller
wake t c = elim (get_elem? c.tasks t) [
  | none ↦ c
  | some task ↦
      if is_waiting task.phase && mem t c.slots.woken
      then set_phase t task granted (record c { slots = resume t c.slots })
      else c
]

-- From the slot to the session's creation, or to the prompt if there is a session.
unfoldable pub enter_with : ℕ → Task → ChildRun → Controller → Controller
enter_with t task run c =
    if is_running run.summary.status
    then elim run.handle [
      | none ↦ set_phase t task creating c
      | some h ↦ set_phase t task prompting c
    ]
    else finish t task c

-- run.handle = await createIsolatedChildSession(…)
unfoldable pub created_with : ℕ → Task → ChildRun → ℕ → Controller → Controller
created_with t task run handle c =
    let run' = record run { handle = some handle } in
    let phase = if is_running run.summary.status then prompting else disposing in
    set_phase t task phase (set_object task.run run' c)

-- The `catch` of `executePrompt`, and its `finally`, which runs too where `touch` throws.
abbrev pub fail_patch : Text → ℕ → AgentRunSummary → AgentRunSummary
fail_patch message now s = record s {
  status = failed;
  error = some message;
  completed_at = some now;
}

unfoldable pub catch_with : ℕ → Task → ChildRun → Text → ℕ → Controller → Controller
catch_with t task run message now c =
    if is_running run.summary.status
    then finish t task (set_object task.run (touch (fail_patch message now) now run) c)
    else finish t task c

-- The late session has been disposed of.
unfoldable pub disposed_with : ℕ → Task → ChildRun → Controller → Controller
disposed_with t task run c = finish t task (set_object task.run (record run { handle = none }) c)

-- How the prompt ended: it threw, or left messages with an error or a text.
pub data PromptOutcome : Type 0 where
  threw : Text → PromptOutcome
  ended : Option Text → Text → PromptOutcome

abbrev pub complete_patch : Text → ℕ → AgentRunSummary → AgentRunSummary
complete_patch output now s = record s {
  status = completed;
  output = some output;
  completed_at = some now;
}

-- `if (error)`, and the error there.
abbrev pub truthy_option : Option Text → Bool
truthy_option none = false
truthy_option (some s) = truthy s

abbrev pub or_empty : Option Text → Text
or_empty none = []
or_empty (some s) = s

-- Where `touch` throws on the completed run, the `catch` finds it settled and does nothing.
unfoldable pub prompted_with : ℕ → Task → ChildRun → PromptOutcome → ℕ → Controller → Controller
prompted_with t task run (threw message) now c = catch_with t task run message now c
prompted_with t task run (ended error output) now c =
    if is_running run.summary.status
    then (if truthy_option error
        then catch_with t task run (or_empty error) now c
        else finish t task (set_object task.run (touch (complete_patch output now) now run) c))
    else finish t task c
