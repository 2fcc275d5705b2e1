-- ===== src/Runs/Tests.antt =====
-- Histories of the controller and of its slots.
use pi_recipes.Prelude.{
  ℕ, ◌+◌, codes, text_eq, true, false, List, [], ◌∷◌, ◌++◌, none, some, ◌≡◌, ◌<◌, refl, inl,
  get_elem?, arith,
}
use mathlib.Core.Option
use pi_recipes.Agents.{AgentRunStatus, interrupted, is_running}
use pi_recipes.Runs.{
  ChildRun, Controller, Task, done, create_in_process_run_controller, PromptOutcome,
}
use pi_recipes.Runs.Control.{start, new_run, wait_run, interrupt_run, close_run, find_ref, set_ref}
use pi_recipes.Runs.Slots.{
  SlotPool, new_slots, SlotEvent, acquires, releases, resumes, slot_step, slot_run,
}
use pi_recipes.Runs.Slots.Capacity.{IsWorkConserving, slot_run_overcommits}
use pi_recipes.Runs.Slots.Fairness.{line, all_joins, all_leaves, slot_run-line}
use pi_recipes.Runs.Events.{
  Event, starts, waits, interrupts, messages, closes, enters, creates, disposes, step, run_events,
}
use pi_recipes.Runs.Held.{IsAccounted, run_events-IsAccounted}
use pi_recipes.Runs.Settling.{run_events-IsSettled}
use pi_recipes.Runs.Settling.Objects.{IsSettled}
use pi_recipes.Runs.Closing.{step-IsClosedAt}
use pi_recipes.Runs.Closing.Parts.{IsClosedAt}

abbrev test_events : List Event
test_events =
    starts (codes "r1") (codes "scout") (codes "look") none (λ s. true) 1
    ∷ enters 0
    ∷ creates 0 7
    ∷ closes 0 5
    ∷ []

run_events-IsSettled_example :
    IsSettled (run_events test_events (create_in_process_run_controller (some 1)))
run_events-IsSettled_example = run_events-IsSettled (some 1) test_events

run_events-IsAccounted_example :
    IsAccounted (run_events test_events (create_in_process_run_controller (some 1)))
run_events-IsAccounted_example = run_events-IsAccounted (some 1) test_events

abbrev closed_run : Controller
closed_run = run_events test_events (create_in_process_run_controller (some 1))

closed_run_IsClosedAt : IsClosedAt 0 closed_run.objects
unfolding run_events step create_in_process_run_controller new_slots start
    pi_recipes.Runs.execute_prompt pi_recipes.Runs.Slots.acquire pi_recipes.Runs.enter_with
    pi_recipes.Runs.created_with pi_recipes.Runs.touch pi_recipes.Runs.preview close_run find_ref
    set_ref text_eq
closed_run_IsClosedAt = record { run = _; found = refl; closed = refl }

step-IsClosedAt_example : IsClosedAt 0 (step (closes 0 9) closed_run).objects
step-IsClosedAt_example = step-IsClosedAt 0 (closes 0 9) closed_run refl closed_run_IsClosedAt

abbrev creating_run : Controller
creating_run =
    run_events
      (starts (codes "r1") (codes "scout") (codes "look") none (λ s. true) 1 ∷ enters 0 ∷ [])
      (create_in_process_run_controller (some 1))

abbrev young_run : ChildRun
young_run = record (new_run (codes "r1") (codes "scout") (codes "look") none (λ s. true) 1) {
  settled = 0;
}

abbrev late_history : List Event
late_history = messages 0 (codes "more") 4 ∷ closes 0 5 ∷ creates 0 7 ∷ disposes 0 ∷ []

abbrev over_task : Task
over_task = record { run = 0; prompt = codes "look"; phase = done }

starts_empty : IsWorkConserving (new_slots (some 1))
unfolding new_slots
starts_empty = inl refl

is_calm :
    ((new_slots (some 1)).woken ≡ [])
    × (((slot_step (acquires 0) (new_slots (some 1))).woken ≡ []) × Unit {0})
unfolding new_slots slot_step pi_recipes.Runs.Slots.acquire
is_calm = (refl, (refl, tt))

abbrev full_pool : SlotPool
full_pool = slot_run (acquires 0 ∷ acquires 1 ∷ []) (new_slots (some 1))

is_full :
    (0 < full_pool.concurrency)
    × ((full_pool.active ≡ full_pool.concurrency)
        × ((full_pool.queue ≡ 1 ∷ []) × (full_pool.woken ≡ [])))
unfolding new_slots slot_run pi_recipes.Runs.Slots.slot_step pi_recipes.Runs.Slots.acquire
is_full = (omega arith, (refl, (refl, refl)))

slot_run_overcommits_example :
    (slot_run (releases ∷ acquires 2 ∷ resumes 1 ∷ []) full_pool).active ≡ full_pool.concurrency + 1
slot_run_overcommits_example =
    slot_run_overcommits full_pool 1 2 [] is_full.0 is_full.1.0 is_full.1.1.0 is_full.1.1.1

slot_run-line_example :
    all_leaves (acquires 0 ∷ []) ++ line (slot_run (acquires 0 ∷ []) full_pool)
    ≡ line full_pool ++ all_joins (acquires 0 ∷ []) full_pool
slot_run-line_example = slot_run-line (acquires 0 ∷ []) full_pool (tt, tt)

-- A run whose onUpdate throws on every summary that is not of a running run.
abbrev stranded_run : Controller
stranded_run =
    run_events
      (starts (codes "r1") (codes "scout") (codes "look") none (λ s. is_running s.status) 1
        ∷ waits 0 3 false
        ∷ interrupts 0 4
        ∷ [])
      (create_in_process_run_controller (some 1))

-- It has been interrupted, and the `wait` for it is still left.
wait_is_stranded :
    Option.map {B = AgentRunStatus × List ℕ}
      (λ (run : ChildRun). (run.summary.status, run.waiters))
      (get_elem? stranded_run.objects 0)
    ≡ some (interrupted, 3 ∷ [])
unfolding run_events step create_in_process_run_controller new_slots start
    pi_recipes.Runs.execute_prompt pi_recipes.Runs.Slots.acquire pi_recipes.Runs.touch
    pi_recipes.Runs.preview wait_run interrupt_run find_ref set_ref text_eq
wait_is_stranded = refl
