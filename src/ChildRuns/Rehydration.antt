-- ===== src/ChildRuns/Rehydration.antt =====
-- What the snapshots that `readPersistedSnapshots` returns have been checked for.
use pi_recipes.Prelude.{
  Text, codes, text_eq, text_eq_iff, text_eq_refl, is_some, keep, map, Option-cases, true, ◌≡◌,
  refl, subst, inl, inr, List, [], ◌∷◌, Option, none, some, any, All, arith, Bool-cases,
}
use pi_recipes.Json.{Json, Items, str, arr, obj, Fields, get, put, delete, get-delete}
use pi_recipes.ChildRuns.{
  ChildRunSnapshot, written, run_statuses, is_string, is_array, migrate, has_run_shape,
  is_run_status, normalize_child_run_snapshot, id_is, read_snapshot, read_persisted_snapshots,
}

-- A field that is a text.
abbrev pub HasText : Text → Fields → Type 0
HasText k o = (s : Text) × (get k o ≡ some (str s))

pub record IsRun (o : Fields) : Type 0 where
  pub id : HasText (codes "id") o
  pub agent : HasText (codes "agent") o
  pub prompt : HasText (codes "prompt") o
  pub status :
      (s : Text) × (get (codes "status") o ≡ some (str s)) × (any (text_eq s) run_statuses ≡ true)
  pub started_at : HasText (codes "startedAt") o
  pub tool_calls : (xs : Items) × (get (codes "toolCalls") o ≡ some (arr xs))
  pub task : get (codes "task") o ≡ none

is_string-eq : (v : Option Json) → is_string v ≡ true → (s : Text) × (v ≡ some (str s))
is_string-eq v h = ground arith

is_array-eq : (v : Option Json) → is_array v ≡ true → (xs : Items) × (v ≡ some (arr xs))
is_array-eq v h = ground arith

is_run_status-eq :
    (v : Option Json)
    → is_run_status v ≡ true
    → (s : Text) × (v ≡ some (str s)) × (any (text_eq s) run_statuses ≡ true)
is_run_status-eq none h = cc
is_run_status-eq (some (str s)) h = (s, refl, h)
is_run_status-eq (some v) h = cc

get-migrate_task : (o : Fields) → get (codes "task") (migrate o) ≡ none
unfolding migrate text_eq
get-migrate_task o = simp get-delete

has_run_shape-IsRun : (o : Fields) → has_run_shape o ≡ true → get (codes "task") o ≡ none → IsRun o
unfolding has_run_shape
has_run_shape-IsRun o h no_task = record {
  id = is_string-eq _ (ground arith);
  agent = is_string-eq _ (ground arith);
  prompt = is_string-eq _ (ground arith);
  status = is_run_status-eq _ (ground arith);
  started_at = is_string-eq _ (ground arith);
  tool_calls = is_array-eq _ (ground arith);
  task = no_task;
}

-- Whatever is accepted has the shape of a run: texts as its id, agent, prompt and start time, one
-- of the four statuses, and an array of tool calls; and nothing of the old `task` key is left.
pub normalize-IsRun : (v : Json) (o : Fields) → normalize_child_run_snapshot v ≡ some o → IsRun o
unfolding normalize_child_run_snapshot
normalize-IsRun (obj original) o h = elim (Bool-cases (has_run_shape (migrate original))) [
  | inl good ↦ subst IsRun (ground arith) (has_run_shape-IsRun _ good (get-migrate_task original))
  | inr bad ↦ ground arith
]
normalize-IsRun _ o h = cc

-- What `writeStatus` writes of a snapshot passes the check unchanged.
pub normalize-written :
    (s : ChildRunSnapshot) → normalize_child_run_snapshot (obj (written s)) ≡ some (written s)
unfolding normalize_child_run_snapshot written get put delete text_eq
normalize-written s = ground arith

id-written : (s : ChildRunSnapshot) → get (codes "id") (written s) ≡ some (str s.id)
unfolding written get text_eq
id-written s = refl

read_snapshot-written :
    (s : ChildRunSnapshot) → read_snapshot s.id (some (obj (written s))) ≡ some (written s)
unfolding read_snapshot
read_snapshot-written s = ground (arith, normalize-written s, id-written s, text_eq_refl s.id)

-- If each of the listed directories holds the file that was written of its snapshot,
-- `readPersistedSnapshots` returns exactly those snapshots, in the order of the listing, each with
-- the status that was written; setting those that were running to interrupted is left to its caller.
pub read_persisted-written :
    (read : Text → Option Json) (snapshots : List ChildRunSnapshot)
    → All (λ s. read s.id ≡ some (obj (written s))) snapshots
    → read_persisted_snapshots read (map (λ s. s.id) snapshots) ≡ map written snapshots
unfolding read_persisted_snapshots
read_persisted-written read [] h = refl
read_persisted-written read (s ∷ more) (here, later) =
    ground (arith, read_snapshot-written s, read_persisted-written read more later)

id_is_text-eq :
    (run_id : Text) (v : Option Json) (o : Fields)
    → get (codes "id") o ≡ v
    → id_is run_id o ≡ true
    → v ≡ some (str run_id)
id_is_text-eq run_id none o e h = ground arith
id_is_text-eq run_id (some (str s)) o e h = ground (arith, text_eq_iff s run_id)
id_is_text-eq run_id (some v) o e h = ground arith

id_is-get :
    (run_id : Text) (o : Fields) → id_is run_id o ≡ true → get (codes "id") o ≡ some (str run_id)
id_is-get run_id o h = id_is_text-eq run_id (get (codes "id") o) o refl h

read_snapshot-id :
    (run_id : Text) (v : Option Json) (o : Fields)
    → read_snapshot run_id v ≡ some o
    → get (codes "id") o ≡ some (str run_id)
unfolding read_snapshot
read_snapshot-id run_id none o h = cc
read_snapshot-id run_id (some v) o h = ground (arith, id_is-get run_id o)

-- The directories that `readPersistedSnapshots` returns a snapshot for are those whose file passes the check,
-- in the order of the listing, each once for each time that it is listed; and each snapshot's id
-- is the name of its directory.
pub read_persisted_ids :
    (read : Text → Option Json) (run_ids : List Text)
    → map (get (codes "id")) (read_persisted_snapshots read run_ids)
      ≡ map (λ r. some (str r)) (keep (λ r. is_some (read_snapshot r (read r))) run_ids)
unfolding read_persisted_snapshots
read_persisted_ids read [] = refl
read_persisted_ids read (r ∷ run_ids) = elim (Option-cases (read_snapshot r (read r))) [
  | inl missing ↦ rw (missing, read_persisted_snapshots) (read_persisted_ids read run_ids)
  | inr (o, found) ↦
      rw (found, read_persisted_snapshots)
        (ground (arith, read_snapshot-id r (read r) o found, read_persisted_ids read run_ids))
]
