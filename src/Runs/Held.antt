-- ===== src/Runs/Held.antt =====
-- Slots are accounted for: none leaks, and none is released twice.
use pi_recipes.Prelude.{
  ℕ, ◌-◌, Text, Bool, true, false, ◌≡◌, refl, ap, List, [], ◌∷◌, Option, some, count, count-set,
  count-append, length, get_elem?, arith, inl, inr, Option-cases, if-keeps,
}
use pi_recipes.Agents.{is_running}
use pi_recipes.Runs.Slots.{SlotPool, release, new_slots, slot_step, acquires, releases, resumes}
use pi_recipes.Runs.Slots.Capacity.{IsWorkConserving, slot_step-IsWorkConserving}
use pi_recipes.Runs.{
  ChildRun, Phase, waiting, granted, creating, prompting, disposing, done, Task, Controller, touch,
  set_object, set_phase, finish, execute_prompt, wake, enter_with, created_with, catch_with,
  disposed_with, PromptOutcome, threw, ended, prompted_with, complete_patch, or_empty,
  create_in_process_run_controller,
}
use pi_recipes.Runs.Control.{
  restart_patch, start, message_run, message_rest, interrupt_run, close_run, close_rest, wait_run,
  abort_wait, tool_activity,
}
use pi_recipes.Runs.Events.{
  Event, step, run_events, starts, messages, message_resumes, steered, interrupts, closes,
  close_ends, waits, wait_aborts, activity, wakes, enters, disposes, creates, create_fails, prompts,
  with_run-keeps, with_task-keeps,
}

-- The phases between `acquireSlot` and the `finally`.
abbrev pub holds : Phase → Bool
holds waiting = false
holds done = false
holds _ = true

-- As many slots are taken as invocations are past `acquireSlot` and not over.
abbrev pub IsHeld : Controller → Type 0
IsHeld c = c.slots.active ≡ count (λ (t : Task). holds t.phase) c.tasks

-- And nobody waits for a slot that is neither taken nor promised.
abbrev pub IsAccounted : Controller → Type 0
IsAccounted c = IsHeld c × IsWorkConserving c.slots

active-release : (s : SlotPool) → (release s).active ≡ s.active - 1
unfolding release
active-release s = ground arith

module _ (t : ℕ) (task : Task) (c : Controller) (found : get_elem? c.tasks t ≡ some task) where
  finish-IsAccounted : holds task.phase ≡ true → IsAccounted c → IsAccounted (finish t task c)
  unfolding finish slot_step
  finish-IsAccounted h v = ground (
    arith,
    active-release c.slots,
    slot_step-IsWorkConserving releases c.slots,
    count-set (λ (x : Task). holds x.phase) c.tasks t (record task { phase = done }) task found,
  )

  set_phase-IsAccounted :
      (phase : Phase)
      → holds task.phase ≡ true
      → holds phase ≡ true
      → IsAccounted c
      → IsAccounted (set_phase t task phase c)
  set_phase-IsAccounted phase h k v = ground (
    arith,
    count-set (λ (x : Task). holds x.phase) c.tasks t (record task { phase = phase }) task found,
  )

execute_prompt-IsAccounted :
    (ref : ℕ) (run : ChildRun) (prompt : Text) (c : Controller)
    → IsAccounted c
    → IsAccounted (execute_prompt ref run prompt c)
unfolding execute_prompt slot_step
execute_prompt-IsAccounted ref run prompt c v = ground (
  arith,
  slot_step-IsWorkConserving (acquires (length c.tasks)) c.slots tt,
  count-append (λ (x : Task). holds x.phase) c.tasks
      (record { run = ref; prompt = prompt; phase = granted } ∷ []),
  count-append (λ (x : Task). holds x.phase) c.tasks
      (record { run = ref; prompt = prompt; phase = waiting } ∷ []),
)

wake-IsAccounted : (t : ℕ) (c : Controller) → IsAccounted c → IsAccounted (wake t c)
unfolding wake slot_step
wake-IsAccounted t c v = elim (Option-cases (get_elem? c.tasks t)) [
  | inl missing ↦ ground arith
  | inr (task, found) ↦ ground (
    arith,
    slot_step-IsWorkConserving (resumes t) c.slots tt,
    count-set (λ (x : Task). holds x.phase) c.tasks t (record task { phase = granted }) task found,
  )
]

enter_with-IsAccounted :
    (t : ℕ) (task : Task) (run : ChildRun) (c : Controller)
    → get_elem? c.tasks t ≡ some task
    → holds task.phase ≡ true
    → IsAccounted c
    → IsAccounted (enter_with t task run c)
unfolding enter_with
enter_with-IsAccounted t task run c found h v = ground (
  arith,
  finish-IsAccounted t task c found h v,
  set_phase-IsAccounted t task c found creating h refl v,
  set_phase-IsAccounted t task c found prompting h refl v,
)

created_with-IsAccounted :
    (t : ℕ) (task : Task) (run : ChildRun) (handle : ℕ) (c : Controller)
    → get_elem? c.tasks t ≡ some task
    → holds task.phase ≡ true
    → IsAccounted c
    → IsAccounted (created_with t task run handle c)
unfolding created_with
created_with-IsAccounted t task run handle c found h v =
    let c' = set_object task.run (record run { handle = some handle }) c in
    ground (
      arith,
      set_phase-IsAccounted t task c' found prompting h refl v,
      set_phase-IsAccounted t task c' found disposing h refl v,
    )

catch_with-IsAccounted :
    (t : ℕ) (task : Task) (run : ChildRun) (message : Text) (now : ℕ) (c : Controller)
    → get_elem? c.tasks t ≡ some task
    → holds task.phase ≡ true
    → IsAccounted c
    → IsAccounted (catch_with t task run message now c)
unfolding catch_with
catch_with-IsAccounted t task run message now c found h v =
    if-keeps IsAccounted (is_running run.summary.status) _ _
      (λ _. finish-IsAccounted t task (set_object task.run _ c) found h v)
      (λ _. finish-IsAccounted t task c found h v)

prompted_with-IsAccounted :
    (t : ℕ) (task : Task) (run : ChildRun) (outcome : PromptOutcome) (now : ℕ) (c : Controller)
    → get_elem? c.tasks t ≡ some task
    → holds task.phase ≡ true
    → IsAccounted c
    → IsAccounted (prompted_with t task run outcome now c)
unfolding prompted_with
prompted_with-IsAccounted t task run (threw message) now c found h v =
    catch_with-IsAccounted t task run message now c found h v
prompted_with-IsAccounted t task run (ended error output) now c found h v = ground (
  arith,
  catch_with-IsAccounted t task run (or_empty error) now c found h v,
  finish-IsAccounted t task (set_object task.run (touch (complete_patch output now) now run) c)
      found h v,
  finish-IsAccounted t task c found h v,
)

message_rest-IsAccounted :
    (ref : ℕ) (run : ChildRun) (text : Text) (now : ℕ) (c : Controller)
    → IsAccounted c
    → IsAccounted (message_rest ref run text now c).1
unfolding message_rest
message_rest-IsAccounted ref run text now c v =
    ground (arith, execute_prompt-IsAccounted ref (touch restart_patch now run) text c v)

message_run-IsAccounted :
    (ref : ℕ) (run : ChildRun) (text : Text) (now : ℕ) (c : Controller)
    → IsAccounted c
    → IsAccounted (message_run ref run text now c).1
unfolding message_run
message_run-IsAccounted ref run text now c v =
    ground (arith, message_rest-IsAccounted ref run text now c v)

step-IsAccounted : (ev : Event) (c : Controller) → IsAccounted c → IsAccounted (step ev c)
unfolding step start message_run message_rest interrupt_run close_run close_rest wait_run abort_wait
    tool_activity disposed_with
step-IsAccounted (starts id name prompt label on_update now) c v =
    execute_prompt-IsAccounted _ _ prompt _ v
step-IsAccounted (messages ref text now) c v =
    with_run-keeps IsAccounted ref c _ v λ run found. message_run-IsAccounted ref run text now c v
step-IsAccounted (message_resumes ref text now) c v =
    with_run-keeps IsAccounted ref c _ v λ run found. message_rest-IsAccounted ref run text now c v
step-IsAccounted (steered ref now) c v = with_run-keeps IsAccounted ref c _ v λ run found. v
step-IsAccounted (interrupts ref now) c v =
    with_run-keeps IsAccounted ref c _ v λ run found. ground arith
step-IsAccounted (closes ref now) c v =
    with_run-keeps IsAccounted ref c _ v λ run found. ground arith
step-IsAccounted (close_ends ref) c v = with_run-keeps IsAccounted ref c _ v λ run found. v
step-IsAccounted (waits ref w aborted) c v =
    with_run-keeps IsAccounted ref c _ v λ run found. ground arith
step-IsAccounted (wait_aborts ref w) c v = with_run-keeps IsAccounted ref c _ v λ run found. v
step-IsAccounted (activity ref tool now) c v = with_run-keeps IsAccounted ref c _ v λ run found. v
step-IsAccounted (wakes t) c v = wake-IsAccounted t c v
step-IsAccounted (enters t) c v =
    with_task-keeps IsAccounted t granted c _ v
      λ task run found at there. enter_with-IsAccounted t task run c found (ap holds at) v
step-IsAccounted (creates t handle) c v =
    with_task-keeps IsAccounted t creating c _ v
      λ task run found at there. created_with-IsAccounted t task run handle c found (ap holds at) v
step-IsAccounted (create_fails t message now) c v =
    with_task-keeps IsAccounted t creating c _ v λ task run found at there.
      catch_with-IsAccounted t task run message now c found (ap holds at) v
step-IsAccounted (disposes t) c v =
    with_task-keeps IsAccounted t disposing c _ v λ task run found at there.
      finish-IsAccounted t task (set_object task.run _ c) found (ap holds at) v
step-IsAccounted (prompts t outcome now) c v =
    with_task-keeps IsAccounted t prompting c _ v λ task run found at there.
      prompted_with-IsAccounted t task run outcome now c found (ap holds at) v

run_events_from :
    (evs : List Event) (c : Controller) → IsAccounted c → IsAccounted (run_events evs c)
unfolding run_events
run_events_from [] c v = v
run_events_from (ev ∷ evs) c v = run_events_from evs (step ev c) (step-IsAccounted ev c v)

start_IsAccounted :
    (concurrency : Option ℕ) → IsAccounted (create_in_process_run_controller concurrency)
unfolding create_in_process_run_controller new_slots
start_IsAccounted concurrency = (refl, inl refl)

-- After any history of a new controller, whatever the order of starts, messages, interrupts,
-- closes, failures and wake-ups: as many slots are taken as invocations of `executePrompt` are past
-- `acquireSlot` and not over, so each gives its slot back exactly once; and while an invocation is
-- queued, the slots that are taken and those promised to woken invocations reach the bound.
pub run_events-IsAccounted :
    (concurrency : Option ℕ) (evs : List Event)
    → IsAccounted (run_events evs (create_in_process_run_controller concurrency))
run_events-IsAccounted concurrency evs = run_events_from evs _ (start_IsAccounted concurrency)
