-- ===== src/ChildRuns.antt =====
-- Snapshots of background agent runs (src/child-agent-store.ts): what a later process reads back
-- from the status.json files of a workspace.
pub mod Rehydration
mod Tests
use pi_recipes.Prelude.{
  Text, codes, text_eq, Bool, true, false, ◌&&◌, ◌||◌, not, List, [], ◌∷◌, Option, none, some, any,
  if◌then◌else◌,
}
use pi_recipes.Json.{Json, str, arr, obj, Items, Fields, field, end, get, put, delete}

pub data ChildRunStatus : Type 0 where
  running completed failed interrupted : ChildRunStatus

-- `toolCalls` is what JSON.parse gave: its elements are not looked at.
pub record ChildRunSnapshot : Type 0 where
  pub id : Text
  pub agent : Text
  pub label : Option Text
  pub prompt : Text
  pub status : ChildRunStatus
  pub started_at : Text
  pub completed_at : Option Text
  pub output : Option Text
  pub error : Option Text
  pub tool_calls : Items

-- the status texts of RUN_STATUSES
abbrev pub run_statuses : List Text
run_statuses = codes "running" ∷ codes "completed" ∷ codes "failed" ∷ codes "interrupted" ∷ []

-- An optional property that is undefined is not written by JSON.stringify.
optional : Text → Option Text → Fields → Fields
optional k none rest = rest
optional k (some s) rest = field k (str s) rest

status_text : ChildRunStatus → Text
status_text running = codes "running"
status_text completed = codes "completed"
status_text failed = codes "failed"
status_text interrupted = codes "interrupted"

-- What `writeStatus` writes of a snapshot.
pub written : ChildRunSnapshot → Fields
unfolding optional status_text
written s = field (codes "id") (str s.id) (
    field (codes "agent") (str s.agent) (
      optional (codes "label") s.label (
        field (codes "prompt") (str s.prompt) (
          field (codes "status") (str (status_text s.status)) (
            field (codes "startedAt") (str s.started_at) (
              optional (codes "completedAt") s.completed_at (
                optional (codes "output") s.output (
                  optional (codes "error") s.error
                    (field (codes "toolCalls") (arr s.tool_calls) end)))))))))

-- typeof value === "string"
abbrev pub is_string : Option Json → Bool
is_string (some (str s)) = true
is_string _ = false

abbrev pub is_array : Option Json → Bool
is_array (some (arr xs)) = true
is_array _ = false

abbrev is_run_status : Option Json → Bool
is_run_status (some (str s)) = any (text_eq s) run_statuses
is_run_status _ = false

-- The `prompt` of the record: the old `task` where there is no prompt, or undefined.
abbrev prompt_of : Fields → Option Json
prompt_of original =
    if is_string (get (codes "prompt") original)
    then get (codes "prompt") original
    else if is_string (get (codes "task") original)
    then get (codes "task") original
    else none

-- { ...original, prompt } without `task`; a prompt that is undefined is a missing one.
pub migrate : Fields → Fields
migrate original =
    let fields : Fields = elim (prompt_of original) [
      | none ↦ delete (codes "prompt") original
      | some p ↦ put (codes "prompt") p original
    ] in
    delete (codes "task") fields

pub has_run_shape : Fields → Bool
has_run_shape record_fields =
    is_string (get (codes "id") record_fields)
    && is_string (get (codes "agent") record_fields)
    && is_string (get (codes "prompt") record_fields)
    && is_run_status (get (codes "status") record_fields)
    && is_string (get (codes "startedAt") record_fields)
    && is_array (get (codes "toolCalls") record_fields)

-- `normalizeChildRunSnapshot`; the record is returned as it was read.
pub normalize_child_run_snapshot : Json → Option Fields
unfolding migrate has_run_shape
normalize_child_run_snapshot (obj original) =
    let fields = migrate original in if has_run_shape fields then some fields else none
normalize_child_run_snapshot _ = none

-- parsed?.id === runId
abbrev pub id_is : Text → Fields → Bool
id_is run_id fields = elim (get (codes "id") fields) [ some (str s) ↦ text_eq s run_id | _ ↦ false ]

-- One file of `readPersistedSnapshots`: none where reading or JSON.parse throws.
pub read_snapshot : Text → Option Json → Option Fields
unfolding normalize_child_run_snapshot
read_snapshot run_id none = none
read_snapshot run_id (some value) = elim (normalize_child_run_snapshot value) [
  | none ↦ none
  | some fields ↦ if id_is run_id fields then some fields else none
]

-- The loop over the directory; `read` stands for reading and parsing <runId>/status.json.
pub read_persisted_snapshots : (Text → Option Json) → List Text → List Fields
unfolding read_snapshot
read_persisted_snapshots read [] = []
read_persisted_snapshots read (run_id ∷ run_ids) = elim (read_snapshot run_id (read run_id)) [
  | none ↦ read_persisted_snapshots read run_ids
  | some fields ↦ fields ∷ read_persisted_snapshots read run_ids
]
