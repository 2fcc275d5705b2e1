-- ===== src/Runs/Settling.antt =====
-- No run whose onUpdate never throws is wedged, and no `wait` for it: once it has settled it has no
-- waiters left, and while it is running an invocation of `executePrompt` is under way that will
-- settle it.
pub mod Objects
pub mod Invocations
use pi_recipes.Prelude.{
  ℕ, Text, Bool, true, false, ◌≡◌, refl, ap, sym, ◌∙◌, ◌≢◌, subst, List, [], ◌∷◌, ◌++◌, Option,
  none, some, length, ◌==◌, get_elem?, set, set-cases, append-cases, get_elem?-set,
  get_elem?-append, get_elem?-append_old, found-eq, arith, if◌then◌else◌, inl, inr, Option-cases,
  if-keeps, is_some, ◌&&◌, not, keep,
}
use mathlib.Core.Bool.{false≢true}
use native.Mathlib.Decide.{ℕ_discrete}
use pi_recipes.Agents.{AgentRunSummary, is_running, is_closed}
use pi_recipes.Runs.Slots.{acquire, mem}
use pi_recipes.Runs.Control.{
  Reply, restart_patch, interrupt_patch, close_patch, new_run, start, message_run, message_rest,
  interrupt_run, close_run, close_rest, wait_run, abort_wait, tool_activity,
}
use pi_recipes.Runs.Events.{
  Event, step, run_events, starts, messages, message_resumes, steered, interrupts, closes,
  close_ends, waits, wait_aborts, activity, wakes, enters, disposes, creates, create_fails, prompts,
  with_run-keeps, with_task-keeps,
}
use pi_recipes.Runs.{
  ChildRun, Phase, waiting, granted, creating, prompting, disposing, done, Task, Controller, touch,
  touch_returns, is_waiting, set_object, set_phase, finish, execute_prompt, wake, enter_with,
  created_with, catch_with, disposed_with, PromptOutcome, threw, ended, prompted_with,
  complete_patch, fail_patch, or_empty, truthy_option, create_in_process_run_controller,
}
use pi_recipes.Runs.Settling.Objects.{
  is_under_way, MayReplace, set_object-IsSettling, set_tasks-IsSettling, leave-IsSettling,
  new_task-IsSettling, IsSettled, touch-quiet, touch-status, touch-MayReplace, threw-MayReplace,
  handle-MayReplace, settled_free,
}
use pi_recipes.Runs.Settling.Invocations.{
  enter_with-IsSettled, created_with-IsSettled, catch_with-IsSettled, disposed_with-IsSettled,
  prompted_with-IsSettled,
}

phase_of-under_way : (b : Bool) → is_under_way (if b then granted else waiting) ≡ true
phase_of-under_way b = ground arith

message_rest-IsSettled :
    (ref : ℕ) (run : ChildRun) (text : Text) (now : ℕ) (c : Controller)
    → get_elem? c.objects ref ≡ some run
    → IsSettled c
    → IsSettled (message_rest ref run text now c).1
unfolding message_rest execute_prompt touch
message_rest-IsSettled ref run text now c there v =
    let restarted =
      new_task-IsSettling c.objects c.objects c.tasks ref
        (record (touch restart_patch now run) { settled = length c.tasks }) run
        (record {
          run = ref;
          prompt = text;
          phase = if (acquire (length c.tasks) c.slots).1 then granted else waiting;
        })
        there (λ r x _ e. e) refl (touch-quiet restart_patch now run) refl
        (phase_of-under_way (acquire (length c.tasks) c.slots).1) v in
    if-keeps (λ (r : Reply × Controller). IsSettled r.1)
      (is_running run.summary.status && is_some run.handle) _ _ (λ _. v)
      (λ _.
        if-keeps (λ (r : Reply × Controller). IsSettled r.1)
          (touch_returns (touch restart_patch now run)) _ _ (λ _. restarted)
          (λ threw.
            set_object-IsSettling c.objects c.tasks ref run (touch restart_patch now run) there
              (threw-MayReplace restart_patch now run threw) v))

message_run-IsSettled :
    (ref : ℕ) (run : ChildRun) (text : Text) (now : ℕ) (c : Controller)
    → get_elem? c.objects ref ≡ some run
    → IsSettled c
    → IsSettled (message_run ref run text now c).1
unfolding message_run
message_run-IsSettled ref run text now c there v =
    if-keeps (λ (r : Reply × Controller). IsSettled r.1) (is_closed run.summary.status) _ _ (λ _. v)
      (λ _.
        if-keeps (λ (r : Reply × Controller). IsSettled r.1)
          (is_running run.summary.status && not (is_some run.handle)) _ _ (λ _. v)
          (λ _. message_rest-IsSettled ref run text now c there v))

start-IsSettled :
    (id name prompt : Text) (label : Option Text) (on_update : AgentRunSummary → Bool) (now : ℕ)
    (c : Controller)
    → IsSettled c
    → IsSettled (start id name prompt label on_update now c)
unfolding start execute_prompt
start-IsSettled id name prompt label on_update now c v =
    let run = new_run id name prompt label on_update now in
    new_task-IsSettling c.objects (c.objects ++ run ∷ []) c.tasks (length c.objects)
      (record run { settled = length c.tasks }) run
      (record {
        run = length c.objects;
        prompt = prompt;
        phase = if (acquire (length c.tasks) c.slots).1 then granted else waiting;
      })
      (ground (arith, get_elem?-append c.objects run (length c.objects)))
      (λ r x other e. elim (append-cases c.objects r run e) [
        | inl (same, _) ↦ absurd (other same)
        | inr (_, old) ↦ old
      ])
      refl (λ l e. refl) refl (phase_of-under_way (acquire (length c.tasks) c.slots).1) v

wake-IsSettled : (t : ℕ) (c : Controller) → IsSettled c → IsSettled (wake t c)
unfolding wake
wake-IsSettled t c v = elim (Option-cases (get_elem? c.tasks t)) [
  | inl missing ↦ rw (missing, wake) v
  | inr (task, found) ↦
      rw (found, wake)
        (if-keeps IsSettled (is_waiting task.phase && mem t c.slots.woken) _ c
          (λ _. set_tasks-IsSettling c.objects c.tasks t task granted found refl v) (λ _. v))
]

replace :
    (ref : ℕ) (c : Controller) (run : ChildRun) {run' : ChildRun}
    → get_elem? c.objects ref ≡ some run
    → MayReplace run run'
    → IsSettled c
    → IsSettled (set_object ref run' c)
replace ref c run {run'} there m v = set_object-IsSettling c.objects c.tasks ref run run' there m v

step-IsSettled : (ev : Event) (c : Controller) → IsSettled c → IsSettled (step ev c)
unfolding step interrupt_run close_run close_rest wait_run abort_wait tool_activity
step-IsSettled (starts id name prompt label on_update now) c v =
    start-IsSettled id name prompt label on_update now c v
step-IsSettled (messages ref text now) c v =
    with_run-keeps IsSettled ref c _ v λ run there. message_run-IsSettled ref run text now c there v
step-IsSettled (message_resumes ref text now) c v =
    with_run-keeps IsSettled ref c _ v
      λ run there. message_rest-IsSettled ref run text now c there v
step-IsSettled (steered ref now) c v =
    with_run-keeps IsSettled ref c _ v
      λ run there. replace ref c run there (touch-MayReplace (λ s. s) now run (λ e. e)) v
step-IsSettled (interrupts ref now) c v = with_run-keeps IsSettled ref c _ v λ run there.
    if-keeps IsSettled (is_running run.summary.status) _ c
      (λ _. replace ref c run there (touch-MayReplace (interrupt_patch now) now run (λ e. cc)) v)
      (λ _. v)
step-IsSettled (closes ref now) c v = with_run-keeps IsSettled ref c _ v λ run there.
    if-keeps IsSettled (is_closed run.summary.status) c _ (λ _. v)
      (λ _. replace ref c run there (touch-MayReplace (close_patch now) now run (λ e. cc)) v)
step-IsSettled (close_ends ref) c v =
    with_run-keeps IsSettled ref c _ v
      λ run there. replace ref c run there (handle-MayReplace run none (v.quiet ref run there)) v
step-IsSettled (waits ref w aborted) c v = with_run-keeps IsSettled ref c _ v λ run there.
    if-keeps (λ (r : Reply × Controller). IsSettled r.1) (is_running run.summary.status) _ _
      (λ going.
        if-keeps (λ (r : Reply × Controller). IsSettled r.1) aborted _ _ (λ _. v)
          (λ _.
            replace ref c run there
              (record {
                listener = refl;
                quiet = λ l over. absurd (false≢true (sym over ∙ going));
                same = λ _ _. (going, refl);
              })
              v))
      (λ _. v)
step-IsSettled (wait_aborts ref w) c v = with_run-keeps IsSettled ref c _ v λ run there.
    replace ref c run there
      (record {
        listener = refl;
        quiet = λ l over. ap (keep (λ x. not (x == w))) (v.quiet ref run there l over);
        same = λ _ going. (going, refl);
      })
      v
step-IsSettled (activity ref tool now) c v = with_run-keeps IsSettled ref c _ v λ run there.
    replace ref c run there
      (touch-MayReplace (λ s. record s { current_tool = tool }) now run (λ e. e)) v
step-IsSettled (wakes t) c v = wake-IsSettled t c v
step-IsSettled (enters t) c v =
    with_task-keeps IsSettled t granted c _ v
      λ task run found at there. enter_with-IsSettled t task run c found there v
step-IsSettled (creates t handle) c v =
    with_task-keeps IsSettled t creating c _ v
      λ task run found at there. created_with-IsSettled t task run c found there handle v
step-IsSettled (create_fails t message now) c v =
    with_task-keeps IsSettled t creating c _ v
      λ task run found at there. catch_with-IsSettled t task run c found there message now v
step-IsSettled (disposes t) c v =
    with_task-keeps IsSettled t disposing c _ v
      λ task run found at there. disposed_with-IsSettled t task run c found there at v
step-IsSettled (prompts t outcome now) c v =
    with_task-keeps IsSettled t prompting c _ v
      λ task run found at there. prompted_with-IsSettled t task run c found there outcome now v

run_events_from : (evs : List Event) (c : Controller) → IsSettled c → IsSettled (run_events evs c)
unfolding run_events
run_events_from [] c v = v
run_events_from (ev ∷ evs) c v = run_events_from evs (step ev c) (step-IsSettled ev c v)

create-IsSettled :
    (concurrency : Option ℕ) → IsSettled (create_in_process_run_controller concurrency)
unfolding create_in_process_run_controller
create-IsSettled concurrency = record { quiet = λ ref run e l. cc; alive = λ ref run e l. cc }

-- No run is wedged whose onUpdate never throws: after any history of a new controller, whatever the
-- onUpdate of other runs does, such a run has no `wait` left hanging if its status is not running, and
-- if it is running, it has an invocation of `executePrompt`, the one whose promise is its `settled`,
-- that is for this run, is not over, and is not on its way out without settling it.
pub run_events-IsSettled :
    (concurrency : Option ℕ) (evs : List Event)
    → IsSettled (run_events evs (create_in_process_run_controller concurrency))
run_events-IsSettled concurrency evs = run_events_from evs _ (create-IsSettled concurrency)
