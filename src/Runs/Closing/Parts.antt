-- ===== src/Runs/Closing/Parts.antt =====
-- What the parts of methods and invocations do to a run that is closed (src/run-controller.ts).
use pi_recipes.Prelude.{
  ℕ, Text, Bool, true, not, ◌&&◌, ◌≡◌, ◌≢◌, refl, ap, sym, ◌∙◌, List, [], ◌∷◌, ◌++◌, Option, some,
  length, get_elem?, set, get_elem?-set, get_elem?-append, get_elem?-append_old, found-eq, arith,
  inl, inr, Option-cases, if-keeps, is_some,
}
use pi_recipes.Agents.{AgentRunSummary, closed, is_running, is_closed}
use mathlib.Core.Bool.{false≢true}
use native.Mathlib.Decide.{ℕ_discrete}
use pi_recipes.Runs.{
  touch_returns, ChildRun, Task, Controller, touch, finish, execute_prompt, enter_with, catch_with,
  PromptOutcome, threw, ended, prompted_with, fail_patch, complete_patch, truthy_option, or_empty,
}
use pi_recipes.Runs.Control.{Reply, restart_patch, new_run, start, message_run, message_rest}

pub record IsClosedAt (ref : ℕ) (objects : List ChildRun) : Type 0 where
  pub run : ChildRun
  pub found : get_elem? objects ref ≡ some run
  pub closed : run.summary.status ≡ closed

pub touch-status :
    (patch : AgentRunSummary → AgentRunSummary) (now : ℕ) (run : ChildRun)
    → (touch patch now run).summary.status ≡ (patch run.summary).status
unfolding touch
touch-status patch now run = ground arith

module _ (ref : ℕ) where
  abbrev pub StaysClosed : Controller → Type 0
  StaysClosed c = IsClosedAt ref c.objects

  pub set_object-closed :
      (r : ℕ) (objects : List ChildRun) (run run' : ChildRun)
      → get_elem? objects r ≡ some run
      → (run.summary.status ≡ closed → run'.summary.status ≡ closed)
      → IsClosedAt ref objects
      → IsClosedAt ref (set objects r run')
  set_object-closed r objects run run' there h v = elim (ℕ_discrete r ref) [
    | yes here ↦ record {
      run = run';
      found = ground (arith, get_elem?-set objects r ref run' run there);
      closed = h (
          ap (λ y. y.summary.status) (found-eq (sym (ap (get_elem? objects) here) ∙ there) v.found)
          ∙ v.closed);
    }
    | no other ↦ record {
      run = v.run;
      found = ground (arith, get_elem?-set objects r ref run' run there, v.found);
      closed = v.closed;
    }
  ]

  -- A run that is running is no closed one.
  pub busy-closed :
      (r : ℕ) (objects : List ChildRun) (run run' : ChildRun)
      → get_elem? objects r ≡ some run
      → is_running run.summary.status ≡ true
      → IsClosedAt ref objects
      → IsClosedAt ref (set objects r run')
  busy-closed r objects run run' there going v =
      set_object-closed r objects run run' there
        (λ e. absurd (false≢true (sym (ap is_running e) ∙ going))) v

  pub catch_with-closed :
      (t : ℕ) (task : Task) (run : ChildRun) (message : Text) (now : ℕ) (c : Controller)
      → get_elem? c.objects task.run ≡ some run
      → StaysClosed c
      → StaysClosed (catch_with t task run message now c)
  unfolding catch_with finish
  catch_with-closed t task run message now c there v =
      if-keeps StaysClosed (is_running run.summary.status) _ _
        (λ going.
          busy-closed task.run c.objects run (touch (fail_patch message now) now run) there going v)
        (λ _. v)

  pub prompted_with-closed :
      (t : ℕ) (task : Task) (run : ChildRun) (outcome : PromptOutcome) (now : ℕ) (c : Controller)
      → get_elem? c.objects task.run ≡ some run
      → StaysClosed c
      → StaysClosed (prompted_with t task run outcome now c)
  unfolding prompted_with finish
  prompted_with-closed t task run (threw message) now c there v =
      catch_with-closed t task run message now c there v
  prompted_with-closed t task run (ended error output) now c there v =
      if-keeps StaysClosed (is_running run.summary.status) _ _
        (λ going.
          if-keeps StaysClosed (truthy_option error) _ _
            (λ _. catch_with-closed t task run (or_empty error) now c there v)
            (λ _.
              busy-closed task.run c.objects run (touch (complete_patch output now) now run) there
                going v))
        (λ _. v)

  pub enter_with-closed :
      (t : ℕ) (task : Task) (run : ChildRun) (c : Controller)
      → StaysClosed c
      → StaysClosed (enter_with t task run c)
  unfolding enter_with finish
  enter_with-closed t task run c v =
      if-keeps StaysClosed (is_running run.summary.status) _ _
        (λ going. elim (Option-cases run.handle) [ inl e ↦ rw e v | inr (h, e) ↦ rw e v ]) (λ _. v)

  pub message_rest-closed :
      (r : ℕ) (run : ChildRun) (text : Text) (now : ℕ) (c : Controller)
      → get_elem? c.objects r ≡ some run
      → run.summary.status ≢ closed
      → StaysClosed c
      → StaysClosed (message_rest r run text now c).1
  unfolding message_rest execute_prompt
  message_rest-closed r run text now c there open_run v =
      if-keeps (λ (x : Reply × Controller). StaysClosed x.1)
        (is_running run.summary.status && is_some run.handle) _ _ (λ _. v)
        (λ _.
          if-keeps (λ (x : Reply × Controller). StaysClosed x.1)
            (touch_returns (touch restart_patch now run)) _ _
            (λ _.
              set_object-closed r c.objects run
                (record (touch restart_patch now run) { settled = length c.tasks }) there
                (λ e. absurd (open_run e)) v)
            (λ _.
              set_object-closed r c.objects run (touch restart_patch now run) there
                (λ e. absurd (open_run e)) v))

  pub message_run-closed :
      (r : ℕ) (run : ChildRun) (text : Text) (now : ℕ) (c : Controller)
      → get_elem? c.objects r ≡ some run
      → StaysClosed c
      → StaysClosed (message_run r run text now c).1
  unfolding message_run
  message_run-closed r run text now c there v =
      if-keeps (λ (x : Reply × Controller). StaysClosed x.1) (is_closed run.summary.status) _ _
        (λ _. v)
        (λ open_run.
          if-keeps (λ (x : Reply × Controller). StaysClosed x.1)
            (is_running run.summary.status && not (is_some run.handle)) _ _ (λ _. v)
            (λ _.
              message_rest-closed r run text now c there
                (λ e. false≢true (sym open_run ∙ ap is_closed e)) v))

  pub start-closed :
      (id name prompt : Text) (label : Option Text) (on_update : AgentRunSummary → Bool) (now : ℕ)
      (c : Controller)
      → StaysClosed c
      → StaysClosed (start id name prompt label on_update now c)
  unfolding start execute_prompt
  start-closed id name prompt label on_update now c v =
      let run = new_run id name prompt label on_update now in
      busy-closed (length c.objects) (c.objects ++ run ∷ []) run
        (record run { settled = length c.tasks })
        (ground (arith, get_elem?-append c.objects run (length c.objects))) refl
        (record {
          run = v.run;
          found = get_elem?-append_old c.objects ref run v.found;
          closed = v.closed;
        })
