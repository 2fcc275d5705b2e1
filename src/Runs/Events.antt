-- ===== src/Runs/Events.antt =====
-- Histories of the controller: parts of its methods and of its invocations of `executePrompt`
-- (src/run-controller.ts), in any order that their `await`s allow, or none that they forbid.
use pi_recipes.Prelude.{
  ℕ, Text, Bool, true, false, List, [], ◌∷◌, Option, none, some, get_elem?, if◌then◌else◌, ◌≡◌, inl,
  inr, arith, Option-cases, if-keeps,
}
use pi_recipes.Agents.{AgentRunSummary}
use pi_recipes.Runs.{
  ChildRun, Phase, waiting, granted, creating, prompting, disposing, done, Task, Controller, touch,
  set_object, wake, enter_with, created_with, catch_with, disposed_with, PromptOutcome,
  prompted_with,
}
use pi_recipes.Runs.Control.{
  start, message_run, message_rest, interrupt_run, close_run, close_rest, wait_run, abort_wait,
  tool_activity,
}

pub data Event : Type 0 where
  starts : Text → Text → Text → Option Text → (AgentRunSummary → Bool) → ℕ → Event
  messages message_resumes : ℕ → Text → ℕ → Event
  steered interrupts closes : ℕ → ℕ → Event
  close_ends : ℕ → Event
  waits : ℕ → ℕ → Bool → Event
  wait_aborts : ℕ → ℕ → Event
  activity : ℕ → Option Text → ℕ → Event
  wakes enters disposes : ℕ → Event
  creates : ℕ → ℕ → Event
  create_fails : ℕ → Text → ℕ → Event
  prompts : ℕ → PromptOutcome → ℕ → Event

-- The part runs on the run object, if there is one at the place.
abbrev pub with_run : ℕ → Controller → (ChildRun → Controller) → Controller
with_run ref c f = elim (get_elem? c.objects ref) [ none ↦ c | some run ↦ f run ]

-- `phase` is where the invocation has to stand for the part to run next.
abbrev pub is_phase : Phase → Phase → Bool
is_phase waiting waiting = true
is_phase granted granted = true
is_phase creating creating = true
is_phase prompting prompting = true
is_phase disposing disposing = true
is_phase done done = true
is_phase _ _ = false

abbrev pub with_task : ℕ → Phase → Controller → (Task → ChildRun → Controller) → Controller
with_task t phase c f = elim (get_elem? c.tasks t) [
  | none ↦ c
  | some task ↦ if is_phase task.phase phase then with_run task.run c (f task) else c
]

unfoldable pub step : Event → Controller → Controller
step (starts id name prompt label on_update now) c = start id name prompt label on_update now c
step (messages ref text now) c = with_run ref c λ run. (message_run ref run text now c).1
step (message_resumes ref text now) c = with_run ref c λ run. (message_rest ref run text now c).1
step (steered ref now) c = with_run ref c λ run. set_object ref (touch (λ s. s) now run) c
step (interrupts ref now) c = with_run ref c λ run. interrupt_run ref run now c
step (closes ref now) c = with_run ref c λ run. close_run ref run now c
step (close_ends ref) c = with_run ref c λ run. close_rest ref run c
step (waits ref w aborted) c = with_run ref c λ run. (wait_run ref run w aborted c).1
step (wait_aborts ref w) c = with_run ref c λ run. abort_wait ref run w c
step (activity ref tool now) c = with_run ref c λ run. tool_activity ref run tool now c
step (wakes t) c = wake t c
step (enters t) c = with_task t granted c λ task run. enter_with t task run c
step (creates t handle) c = with_task t creating c λ task run. created_with t task run handle c
step (create_fails t message now) c =
    with_task t creating c λ task run. catch_with t task run message now c
step (disposes t) c = with_task t disposing c λ task run. disposed_with t task run c
step (prompts t outcome now) c =
    with_task t prompting c λ task run. prompted_with t task run outcome now c

unfoldable pub run_events : List Event → Controller → Controller
run_events [] c = c
run_events (ev ∷ evs) c = run_events evs (step ev c)

-- `shutdown` up to its first `await`: every run that is not closed is closed.
close_refs : List (Text × ℕ) → ℕ → Controller → Controller
close_refs [] now c = c
close_refs ((id, ref) ∷ rest) now c =
    close_refs rest now (with_run ref c λ run. close_run ref run now c)

pub shutdown : ℕ → Controller → Controller
unfolding close_refs
shutdown now c = close_refs c.runs now c

-- What holds before and after the part alone holds after the part in its place.
pub with_run-keeps {ℓ} :
    (P : Controller → Type ℓ) (ref : ℕ) (c : Controller) (f : ChildRun → Controller)
    → P c
    → ((run : ChildRun) → get_elem? c.objects ref ≡ some run → P (f run))
    → P (with_run ref c f)
with_run-keeps P ref c f h k = elim (Option-cases (get_elem? c.objects ref)) [
  | inl missing ↦ rw (missing, with_run) h
  | inr (run, found) ↦ rw (found, with_run) (k run found)
]

is_phase-eq : (p q : Phase) → is_phase p q ≡ true → p ≡ q
is_phase-eq waiting q h = ground arith
is_phase-eq granted q h = ground arith
is_phase-eq creating q h = ground arith
is_phase-eq prompting q h = ground arith
is_phase-eq disposing q h = ground arith
is_phase-eq done q h = ground arith

pub with_task-keeps {ℓ} :
    (P : Controller → Type ℓ) (t : ℕ) (phase : Phase) (c : Controller)
    (f : Task → ChildRun → Controller)
    → P c
    → ((task : Task) (run : ChildRun)
        → get_elem? c.tasks t ≡ some task
        → task.phase ≡ phase
        → get_elem? c.objects task.run ≡ some run
        → P (f task run))
    → P (with_task t phase c f)
with_task-keeps P t phase c f h k = elim (Option-cases (get_elem? c.tasks t)) [
  | inl missing ↦ rw (missing, with_task) h
  | inr (task, found) ↦
      rw (found, with_task)
        (if-keeps P (is_phase task.phase phase) _ c
          (λ here.
            with_run-keeps P task.run c (f task) h
              (λ run there. k task run found (is_phase-eq task.phase phase here) there))
          (λ elsewhere. h))
]
