-- ===== src/Runs/Settling/Objects.antt =====
-- What keeps the runs settled: the changes of one run, of one invocation, and a new one.
use pi_recipes.Prelude.{
  ℕ, Bool, true, false, ◌≡◌, refl, ap, sym, ◌∙◌, ◌≢◌, subst, List, [], ◌∷◌, ◌++◌, Option, some,
  length, get_elem?, set, set-cases, get_elem?-set, get_elem?-append, get_elem?-append_old,
  found-eq, arith, inl, inr,
}
use mathlib.Core.Bool.{false≢true}
use native.Mathlib.Decide.{ℕ_discrete}
use pi_recipes.Agents.{AgentRunSummary, is_running}
use pi_recipes.Runs.{ChildRun, Phase, disposing, done, Task, Controller, touch, touch_returns}

abbrev pub is_under_way : Phase → Bool
is_under_way done = false
is_under_way disposing = false
is_under_way _ = true

-- The run's onUpdate never throws.
abbrev pub Listens : ChildRun → Type 0
Listens run = (s : AgentRunSummary) → run.on_update s ≡ true

pub record IsSettling (objects : List ChildRun) (tasks : List Task) : Type 0 where
  pub quiet :
      (ref : ℕ) (run : ChildRun)
      → get_elem? objects ref ≡ some run
      → Listens run
      → is_running run.summary.status ≡ false
      → run.waiters ≡ []
  pub alive :
      (ref : ℕ) (run : ChildRun)
      → get_elem? objects ref ≡ some run
      → Listens run
      → is_running run.summary.status ≡ true
      → (task : Task) × (get_elem? tasks run.settled ≡ some task)
        × (task.run ≡ ref)
        × (is_under_way task.phase ≡ true)

-- The run object may take the place of the other, with no invocation started.
pub record MayReplace (run run' : ChildRun) : Type 0 where
  pub listener : run'.on_update ≡ run.on_update
  pub quiet : Listens run' → is_running run'.summary.status ≡ false → run'.waiters ≡ []
  pub same :
      Listens run'
      → is_running run'.summary.status ≡ true
      → (is_running run.summary.status ≡ true) × (run'.settled ≡ run.settled)

pub set_object-IsSettling :
    (objects : List ChildRun) (tasks : List Task) (ref : ℕ) (run run' : ChildRun)
    → get_elem? objects ref ≡ some run
    → MayReplace run run'
    → IsSettling objects tasks
    → IsSettling (set objects ref run') tasks
set_object-IsSettling objects tasks ref run run' found m v = record {
  quiet = λ r x e l h. elim (set-cases objects ref r run' found e) [
    | inl (here, same) ↦
        subst (λ y. y.waiters ≡ []) same
          (m.quiet (subst Listens (sym same) l) (ap (λ y. is_running y.summary.status) same ∙ h))
    | inr (there, old) ↦ v.quiet r x old l h
  ];
  alive = λ r x e l h. elim (set-cases objects ref r run' found e) [
    | inl (here, same) ↦
        let (was, kept) =
          m.same (subst Listens (sym same) l) (ap (λ y. is_running y.summary.status) same ∙ h) in
        let l' : Listens run = λ s. sym (ap (λ f. f s) m.listener) ∙ subst Listens (sym same) l s in
        let (task, at, its, way) = v.alive ref run found l' was in
        (task, ap (get_elem? tasks) (sym (ap (λ y. y.settled) same) ∙ kept) ∙ at, its ∙ here, way)
    | inr (there, old) ↦ v.alive r x old l h
  ];
}

-- Every invocation under way stays under way.
pub set_tasks-IsSettling :
    (objects : List ChildRun) (tasks : List Task) (t : ℕ) (task : Task) (phase : Phase)
    → get_elem? tasks t ≡ some task
    → is_under_way phase ≡ true
    → IsSettling objects tasks
    → IsSettling objects (set tasks t (record task { phase = phase }))
set_tasks-IsSettling objects tasks t task phase found way v = record {
  quiet = v.quiet;
  alive = λ r x e l h.
      let (old, at, its, under) = v.alive r x e l h in
      elim (ℕ_discrete t x.settled) [
        | yes same ↦
            let old-is : task ≡ old = found-eq (sym (ap (get_elem? tasks) same) ∙ found) at in
            (
              record task { phase = phase },
              ground (
                arith,
                get_elem?-set tasks t x.settled (record task { phase = phase }) task found,
              ),
              ap (λ y. y.run) old-is ∙ its,
              way,
            )
        | no other ↦ (
          old,
          ground
              (arith, get_elem?-set tasks t x.settled (record task { phase = phase }) task found),
          its,
          under,
        )
      ];
}

-- An invocation on which no running run depends may change its phase in any way.
pub leave-IsSettling :
    (objects : List ChildRun) (tasks : List Task) (t : ℕ) (task : Task) (phase : Phase)
    → get_elem? tasks t ≡ some task
    → ((x : ChildRun)
        → get_elem? objects task.run ≡ some x
        → Listens x
        → is_running x.summary.status ≡ true
        → t ≢ x.settled)
    → IsSettling objects tasks
    → IsSettling objects (set tasks t (record task { phase = phase }))
leave-IsSettling objects tasks t task phase found free v = record {
  quiet = v.quiet;
  alive = λ r x e l h.
      let (old, at, its, under) = v.alive r x e l h in
      elim (ℕ_discrete t x.settled) [
        | yes same ↦
            let old-is : task ≡ old = found-eq (sym (ap (get_elem? tasks) same) ∙ found) at in
            absurd (free x (ap (get_elem? objects) (ap (λ y. y.run) old-is ∙ its) ∙ e) l h same)
        | no other ↦ (
          old,
          ground
              (arith, get_elem?-set tasks t x.settled (record task { phase = phase }) task found),
          its,
          under,
        )
      ];
}

pub new_task-IsSettling :
    (old objects : List ChildRun) (tasks : List Task) (ref : ℕ) (run before : ChildRun)
    (task : Task)
    → get_elem? objects ref ≡ some before
    → ((r : ℕ) (x : ChildRun) → r ≢ ref → get_elem? objects r ≡ some x → get_elem? old r ≡ some x)
    → run.settled ≡ length tasks
    → (Listens run → is_running run.summary.status ≡ false → run.waiters ≡ [])
    → task.run ≡ ref
    → is_under_way task.phase ≡ true
    → IsSettling old tasks
    → IsSettling (set objects ref run) (tasks ++ task ∷ [])
new_task-IsSettling old objects tasks ref run before task found same settled quiet its way v =
    record {
      quiet = λ r x e l h. elim (set-cases objects ref r run found e) [
        | inl (here, is) ↦
            subst (λ y. y.waiters ≡ []) is
              (quiet (subst Listens (sym is) l) (ap (λ y. is_running y.summary.status) is ∙ h))
        | inr (there, e') ↦ v.quiet r x (same r x (λ p. there (sym p)) e') l h
      ];
      alive = λ r x e l h. elim (set-cases objects ref r run found e) [
        | inl (here, is) ↦ (
          task,
          ground
              (arith, ap (λ (y : ChildRun). y.settled) is, get_elem?-append tasks task x.settled),
          its ∙ here,
          way,
        )
        | inr (there, e') ↦
            let (k, at, mine, under) = v.alive r x (same r x (λ p. there (sym p)) e') l h in
            (k, get_elem?-append_old tasks x.settled task at, mine, under)
      ];
    }

abbrev pub IsSettled : Controller → Type 0
IsSettled c = IsSettling c.objects c.tasks

pub touch-quiet :
    (patch : AgentRunSummary → AgentRunSummary) (now : ℕ) (run : ChildRun)
    → Listens run
    → is_running (touch patch now run).summary.status ≡ false
    → (touch patch now run).waiters ≡ []
unfolding touch
touch-quiet patch now run l h = ground (arith, l (touch patch now run).summary)

pub touch-status :
    (patch : AgentRunSummary → AgentRunSummary) (now : ℕ) (run : ChildRun)
    → (touch patch now run).summary.status ≡ (patch run.summary).status
unfolding touch
touch-status patch now run = ground arith

touch-settled :
    (patch : AgentRunSummary → AgentRunSummary) (now : ℕ) (run : ChildRun)
    → (touch patch now run).settled ≡ run.settled
unfolding touch
touch-settled patch now run = refl

pub touch-on_update :
    (patch : AgentRunSummary → AgentRunSummary) (now : ℕ) (run : ChildRun)
    → (touch patch now run).on_update ≡ run.on_update
unfolding touch
touch-on_update patch now run = refl

-- A patch that sets no status to running.
pub touch-MayReplace :
    (patch : AgentRunSummary → AgentRunSummary) (now : ℕ) (run : ChildRun)
    → (is_running (patch run.summary).status ≡ true → is_running run.summary.status ≡ true)
    → MayReplace run (touch patch now run)
touch-MayReplace patch now run h = record {
  listener = touch-on_update patch now run;
  quiet = λ l.
      touch-quiet patch now run (λ s. sym (ap (λ f. f s) (touch-on_update patch now run)) ∙ l s);
  same = λ l e.
      (h (sym (ap is_running (touch-status patch now run)) ∙ e), touch-settled patch now run);
}

-- A touch that threw: the run's onUpdate is one that throws.
pub threw-MayReplace :
    (patch : AgentRunSummary → AgentRunSummary) (now : ℕ) (run : ChildRun)
    → touch_returns (touch patch now run) ≡ false
    → MayReplace run (touch patch now run)
threw-MayReplace patch now run threw = record {
  listener = touch-on_update patch now run;
  quiet = λ l _. absurd (false≢true (sym threw ∙ l _));
  same = λ l _. absurd (false≢true (sym threw ∙ l _));
}

pub handle-MayReplace :
    (run : ChildRun) (handle : Option ℕ)
    → (Listens run → is_running run.summary.status ≡ false → run.waiters ≡ [])
    → MayReplace run (record run { handle = handle })
handle-MayReplace run handle quiet = record {
  listener = refl;
  quiet = quiet;
  same = λ _ e. (e, refl);
}

pub settled_free :
    (objects : List ChildRun) (ref t : ℕ) (run : ChildRun)
    → get_elem? objects ref ≡ some run
    → is_running run.summary.status ≡ false
    → (x : ChildRun) → get_elem? objects ref ≡ some x
    → Listens x
    → is_running x.summary.status ≡ true
    → t ≢ x.settled
settled_free objects ref t run there over x e l h same =
    false≢true (sym over ∙ ap (λ y. is_running y.summary.status) (found-eq there e) ∙ h)
