-- ===== src/Runs/Closing.antt =====
-- A closed run stays closed, but for a message that was waiting for it.
pub mod Parts
use pi_recipes.Prelude.{
  ℕ, Text, Bool, true, false, not, ◌&&◌, ◌≡◌, ◌≢◌, refl, ap, sym, ◌∙◌, List, [], ◌∷◌, ◌++◌, Option,
  some, length, ◌==◌, get_elem?, set, get_elem?-set, get_elem?-append, get_elem?-append_old,
  found-eq, arith, inl, inr, Option-cases, if-keeps, is_some,
}
use pi_recipes.Agents.{AgentRunSummary, closed, is_running, is_closed}
use mathlib.Core.Bool.{false≢true}
use native.Mathlib.Decide.{ℕ_discrete}
use pi_recipes.Runs.Slots.{mem}
use pi_recipes.Runs.{
  touch_returns, ChildRun, granted, creating, prompting, disposing, Task, Controller, touch, finish,
  execute_prompt, wake, is_waiting, enter_with, created_with, catch_with, disposed_with,
  PromptOutcome, threw, ended, prompted_with, fail_patch, complete_patch, truthy_option, or_empty,
}
use pi_recipes.Runs.Control.{
  Reply, restart_patch, close_patch, new_run, start, message_run, message_rest, interrupt_run,
  close_run, close_rest, wait_run, abort_wait, tool_activity,
}
use pi_recipes.Runs.Events.{
  Event, step, starts, messages, message_resumes, steered, interrupts, closes, close_ends, waits,
  wait_aborts, activity, wakes, enters, disposes, creates, create_fails, prompts, with_run-keeps,
  with_task-keeps,
}
use pi_recipes.Runs.Closing.Parts.{
  IsClosedAt, touch-status, StaysClosed, set_object-closed, busy-closed, catch_with-closed,
  prompted_with-closed, enter_with-closed, message_rest-closed, message_run-closed, start-closed,
}

-- The continuation of a `message` to the run that awaited the run's `settled`.
abbrev pub is_late_message : ℕ → Event → Bool
is_late_message ref (message_resumes r text now) = r == ref
is_late_message ref _ = false

kept-closed :
    (ref r : ℕ) (c : Controller) (run run' : ChildRun)
    → get_elem? c.objects r ≡ some run
    → (run.summary.status ≡ closed → run'.summary.status ≡ closed)
    → IsClosedAt ref c.objects
    → IsClosedAt ref (set c.objects r run')
kept-closed ref r c run run' there h v = set_object-closed ref r c.objects run run' there h v

other-closed :
    (ref r : ℕ) (run run' : ChildRun) (c : Controller)
    → get_elem? c.objects r ≡ some run
    → (r == ref) ≡ false
    → IsClosedAt ref c.objects
    → IsClosedAt ref (set c.objects r run')
other-closed ref r run run' c there h v = record {
  run = v.run;
  found = ground (arith, v.found, get_elem?-set c.objects r ref run' run there);
  closed = v.closed;
}

other_message-closed :
    (ref r : ℕ) (run : ChildRun) (text : Text) (now : ℕ) (c : Controller)
    → get_elem? c.objects r ≡ some run
    → (r == ref) ≡ false
    → IsClosedAt ref c.objects
    → IsClosedAt ref (message_rest r run text now c).1.objects
unfolding message_rest execute_prompt
other_message-closed ref r run text now c there h v =
    if-keeps (λ (x : Reply × Controller). StaysClosed ref x.1)
      (is_running run.summary.status && is_some run.handle) _ _ (λ _. v)
      (λ _.
        if-keeps (λ (x : Reply × Controller). StaysClosed ref x.1)
          (touch_returns (touch restart_patch now run)) _ _
          (λ _.
            other-closed ref r run
              (record (touch restart_patch now run) { settled = length c.tasks }) c there h v)
          (λ _. other-closed ref r run (touch restart_patch now run) c there h v))

wake-closed :
    (ref t : ℕ) (c : Controller) → IsClosedAt ref c.objects → IsClosedAt ref (wake t c).objects
unfolding wake
wake-closed ref t c v = elim (Option-cases (get_elem? c.tasks t)) [
  | inl missing ↦ rw (missing, wake) v
  | inr (task, found) ↦
      rw (found, wake)
        (if-keeps (StaysClosed ref) (is_waiting task.phase && mem t c.slots.woken) _ c (λ _. v)
          (λ _. v))
]

-- No part of a method and of an invocation takes a closed run out of `closed`, whatever it works
-- on and in whatever state, but the continuation of a message to it that awaited `settled`.
pub step-IsClosedAt :
    (ref : ℕ) (ev : Event) (c : Controller)
    → is_late_message ref ev ≡ false
    → IsClosedAt ref c.objects
    → IsClosedAt ref (step ev c).objects
unfolding step interrupt_run close_run close_rest wait_run abort_wait tool_activity created_with
    disposed_with finish
step-IsClosedAt ref (starts id name prompt label on_update now) c h v =
    start-closed ref id name prompt label on_update now c v
step-IsClosedAt ref (messages r text now) c h v =
    with_run-keeps (StaysClosed ref) r c _ v
      λ run there. message_run-closed ref r run text now c there v
step-IsClosedAt ref (message_resumes r text now) c h v =
    with_run-keeps (StaysClosed ref) r c _ v
      λ run there. other_message-closed ref r run text now c there h v
step-IsClosedAt ref (steered r now) c h v =
    with_run-keeps (StaysClosed ref) r c _ v
      λ run there. kept-closed ref r c run _ there (λ e. touch-status (λ s. s) now run ∙ e) v
step-IsClosedAt ref (interrupts r now) c h v = with_run-keeps (StaysClosed ref) r c _ v λ run there.
    if-keeps (StaysClosed ref) (is_running run.summary.status) _ c
      (λ going. busy-closed ref r c.objects run _ there going v) (λ _. v)
step-IsClosedAt ref (closes r now) c h v = with_run-keeps (StaysClosed ref) r c _ v λ run there.
    if-keeps (StaysClosed ref) (is_closed run.summary.status) c _ (λ _. v)
      (λ _. kept-closed ref r c run _ there (λ e. touch-status (close_patch now) now run) v)
step-IsClosedAt ref (close_ends r) c h v =
    with_run-keeps (StaysClosed ref) r c _ v λ run there. kept-closed ref r c run _ there (λ e. e) v
step-IsClosedAt ref (waits r w aborted) c h v =
    with_run-keeps (StaysClosed ref) r c _ v λ run there.
      if-keeps (λ (x : Reply × Controller). StaysClosed ref x.1) (is_running run.summary.status) _ _
        (λ going.
          if-keeps (λ (x : Reply × Controller). StaysClosed ref x.1) aborted _ _ (λ _. v)
            (λ _. kept-closed ref r c run _ there (λ e. e) v))
        (λ _. v)
step-IsClosedAt ref (wait_aborts r w) c h v =
    with_run-keeps (StaysClosed ref) r c _ v λ run there. kept-closed ref r c run _ there (λ e. e) v
step-IsClosedAt ref (activity r tool now) c h v =
    with_run-keeps (StaysClosed ref) r c _ v λ run there.
      kept-closed ref r c run _ there
        (λ e. touch-status (λ s. record s { current_tool = tool }) now run ∙ e) v
step-IsClosedAt ref (wakes t) c h v = wake-closed ref t c v
step-IsClosedAt ref (enters t) c h v =
    with_task-keeps (StaysClosed ref) t granted c _ v
      λ task run found at there. enter_with-closed ref t task run c v
step-IsClosedAt ref (creates t handle) c h v =
    with_task-keeps (StaysClosed ref) t creating c _ v
      λ task run found at there. kept-closed ref task.run c run _ there (λ e. e) v
step-IsClosedAt ref (create_fails t message now) c h v =
    with_task-keeps (StaysClosed ref) t creating c _ v
      λ task run found at there. catch_with-closed ref t task run message now c there v
step-IsClosedAt ref (disposes t) c h v =
    with_task-keeps (StaysClosed ref) t disposing c _ v
      λ task run found at there. kept-closed ref task.run c run _ there (λ e. e) v
step-IsClosedAt ref (prompts t outcome now) c h v =
    with_task-keeps (StaysClosed ref) t prompting c _ v
      λ task run found at there. prompted_with-closed ref t task run outcome now c there v
