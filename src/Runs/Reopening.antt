-- ===== src/Runs/Reopening.antt =====
-- A message that waits while its run is closed opens the run again (src/run-controller.ts).
use pi_recipes.Prelude.{ℕ, ◌+◌, true, ◌≡◌, some, length, get_elem?}
use pi_recipes.Agents.{running}
use pi_recipes.Runs.{ChildRun, Controller, touch_returns}

-- The run is running, and if onUpdate returned, an invocation has been started for it.
pub record IsReopened (ref : ℕ) (before after : Controller) : Type 0 where
  pub run : ChildRun
  pub found : get_elem? after.objects ref ≡ some run
  pub running : run.summary.status ≡ running
  pub invoked : touch_returns run ≡ true → length after.tasks ≡ length before.tasks + 1
