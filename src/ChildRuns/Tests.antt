-- ===== src/ChildRuns/Tests.antt =====
-- Rehydration of two finished runs.
use pi_recipes.Prelude.{Text, codes, text_eq, [], ◌∷◌, Option, none, some, ◌≡◌, refl, if◌then◌else◌}
use pi_recipes.Json.{Json, obj, nil}
use pi_recipes.ChildRuns.{
  ChildRunStatus, completed, failed, ChildRunSnapshot, written, read_persisted_snapshots,
}
use pi_recipes.ChildRuns.Rehydration.{
  IsRun, normalize-IsRun, normalize-written, read_persisted-written,
}

abbrev snapshot_of : Text → ChildRunStatus → ChildRunSnapshot
snapshot_of id status = record {
  id = id;
  agent = codes "scout";
  label = none;
  prompt = codes "look";
  status = status;
  started_at = codes "2026-01-01T00:00:00Z";
  completed_at = none;
  output = some (codes "done");
  error = none;
  tool_calls = nil;
}

abbrev first_run : ChildRunSnapshot
first_run = snapshot_of (codes "r1") completed

abbrev second_run : ChildRunSnapshot
second_run = snapshot_of (codes "r2") failed

normalize-IsRun_example : IsRun (written first_run)
normalize-IsRun_example =
    normalize-IsRun (obj (written first_run)) (written first_run) (normalize-written first_run)

abbrev stored : Text → Option Json
stored id =
    if text_eq id (codes "r1")
    then some (obj (written first_run))
    else if text_eq id (codes "r2")
    then some (obj (written second_run))
    else none

r1_stored : stored (codes "r1") ≡ some (obj (written first_run))
unfolding text_eq
r1_stored = refl

r2_stored : stored (codes "r2") ≡ some (obj (written second_run))
unfolding text_eq
r2_stored = refl

read_persisted-written_example :
    read_persisted_snapshots stored (codes "r1" ∷ codes "r2" ∷ [])
    ≡ written first_run ∷ written second_run ∷ []
read_persisted-written_example =
    read_persisted-written stored (first_run ∷ second_run ∷ []) (r1_stored, (r2_stored, tt))
