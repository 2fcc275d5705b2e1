-- ===== src/Runs/Settling/Invocations.antt =====
-- What the parts of an invocation of `executePrompt` do to the runs that are settled
-- (src/run-controller.ts).
use pi_recipes.Prelude.{
  ℕ, Text, true, false, ◌≡◌, refl, ap, sym, ◌∙◌, none, some, get_elem?, set, get_elem?-set,
  found-eq, arith, inl, inr, Option-cases, if-keeps,
}
use mathlib.Core.Bool.{false≢true}
use pi_recipes.Agents.{is_running}
use pi_recipes.Runs.{
  ChildRun, Phase, creating, prompting, disposing, done, Task, Controller, touch, set_object,
  set_phase, finish, enter_with, created_with, catch_with, disposed_with, PromptOutcome, threw,
  ended, prompted_with, complete_patch, fail_patch, or_empty, truthy_option,
}
use pi_recipes.Runs.Settling.Objects.{
  is_under_way, MayReplace, set_object-IsSettling, set_tasks-IsSettling, leave-IsSettling,
  IsSettled, touch-status, touch-MayReplace, handle-MayReplace, settled_free,
}

module _ (t : ℕ) (task : Task) (run : ChildRun) (c : Controller)
    (found : get_elem? c.tasks t ≡ some task)
    (there : get_elem? c.objects task.run ≡ some run) where
  finish-IsSettled :
      is_running run.summary.status ≡ false → IsSettled c → IsSettled (finish t task c)
  unfolding finish
  finish-IsSettled over v =
      leave-IsSettling c.objects c.tasks t task done found
        (settled_free c.objects task.run t run there over) v

  set_phase-IsSettled :
      (phase : Phase)
      → is_under_way phase ≡ true
      → IsSettled c
      → IsSettled (set_phase t task phase c)
  set_phase-IsSettled phase way v = set_tasks-IsSettling c.objects c.tasks t task phase found way v

  set_object-there :
      (run' : ChildRun) → get_elem? (set_object task.run run' c).objects task.run ≡ some run'
  set_object-there run' = ground (arith, get_elem?-set c.objects task.run task.run run' run there)

module _ (t : ℕ) (task : Task) (run : ChildRun) (c : Controller)
    (found : get_elem? c.tasks t ≡ some task)
    (there : get_elem? c.objects task.run ≡ some run) where
  -- The run object is replaced by one that has settled, and the invocation ends.
  settle-IsSettled :
      (run' : ChildRun)
      → MayReplace run run'
      → is_running run'.summary.status ≡ false
      → IsSettled c
      → IsSettled (finish t task (set_object task.run run' c))
  settle-IsSettled run' m over v =
      finish-IsSettled t task run' (set_object task.run run' c) found
        (set_object-there t task run c found there run') over
        (set_object-IsSettling c.objects c.tasks task.run run run' there m v)

  pub enter_with-IsSettled : IsSettled c → IsSettled (enter_with t task run c)
  unfolding enter_with
  enter_with-IsSettled v =
      if-keeps IsSettled (is_running run.summary.status) _ _
        (λ going. elim (Option-cases run.handle) [
          | inl e ↦ rw e (set_phase-IsSettled t task run c found there creating refl v)
          | inr (h, e) ↦ rw e (set_phase-IsSettled t task run c found there prompting refl v)
        ])
        (λ over. finish-IsSettled t task run c found there over v)

  pub created_with-IsSettled :
      (handle : ℕ) → IsSettled c → IsSettled (created_with t task run handle c)
  unfolding created_with
  created_with-IsSettled handle v =
      let run' = record run { handle = some handle } in
      let placed =
        set_object-IsSettling c.objects c.tasks task.run run run' there
          (handle-MayReplace run (some handle) (v.quiet task.run run there)) v in
      let there' : get_elem? (set c.objects task.run run') task.run ≡ some run' =
        set_object-there t task run c found there run' in
      if-keeps (λ phase. IsSettled (set_phase t task phase (set_object task.run run' c)))
        (is_running run.summary.status) _ _
        (λ going. set_tasks-IsSettling _ c.tasks t task prompting found refl placed)
        (λ over.
          leave-IsSettling _ c.tasks t task disposing found
            (settled_free (set c.objects task.run run') task.run t run' there' over) placed)

  pub catch_with-IsSettled :
      (message : Text) (now : ℕ) → IsSettled c → IsSettled (catch_with t task run message now c)
  unfolding catch_with
  catch_with-IsSettled message now v =
      if-keeps IsSettled (is_running run.summary.status) _ _
        (λ going.
          settle-IsSettled (touch (fail_patch message now) now run)
            (touch-MayReplace (fail_patch message now) now run (λ e. going))
            (ap is_running (touch-status (fail_patch message now) now run)) v)
        (λ over. finish-IsSettled t task run c found there over v)

  pub disposed_with-IsSettled :
      task.phase ≡ disposing → IsSettled c → IsSettled (disposed_with t task run c)
  unfolding disposed_with finish
  disposed_with-IsSettled late v =
      let placed =
        set_object-IsSettling c.objects c.tasks task.run run (record run { handle = none }) there
          (handle-MayReplace run none (v.quiet task.run run there)) v in
      leave-IsSettling _ c.tasks t task done found
        (λ x e l h same.
          let (old, at, its, under) = placed.alive task.run x e l h in
          let old-is : task ≡ old = found-eq (sym (ap (get_elem? c.tasks) same) ∙ found) at in
          false≢true (sym (ap is_under_way (sym (ap (λ y. y.phase) old-is) ∙ late)) ∙ under))
        placed

  pub prompted_with-IsSettled :
      (outcome : PromptOutcome) (now : ℕ)
      → IsSettled c
      → IsSettled (prompted_with t task run outcome now c)
  unfolding prompted_with
  prompted_with-IsSettled (threw message) now v = catch_with-IsSettled message now v
  prompted_with-IsSettled (ended error output) now v =
      if-keeps IsSettled (is_running run.summary.status) _ _
        (λ going.
          if-keeps IsSettled (truthy_option error) _ _
            (λ failed_prompt. catch_with-IsSettled (or_empty error) now v)
            (λ fine.
              settle-IsSettled (touch (complete_patch output now) now run)
                (touch-MayReplace (complete_patch output now) now run (λ e. going))
                (ap is_running (touch-status (complete_patch output now) now run)) v))
        (λ over. finish-IsSettled t task run c found there over v)
