-- ===== src/Completions/Envelopes.antt =====
-- Envelopes of finished runs and the notice that is sent to the parent
-- (envelopeFromRun and renderCompletionNotice of src/child-agent-completions.ts).
use pi_recipes.Prelude.{
  ℕ, ◌-◌, Text, codes, List, [], ◌∷◌, ◌++◌, map, Option, none, some, take, leb, if◌then◌else◌,
}
use pi_recipes.Prelude.Texts.{trim, join, truthy}
use pi_recipes.ChildRuns.{ChildRunStatus, ChildRunSnapshot}
use mathlib.Core.Option

pub data CompletionStatus : Type 0 where
  completed failed : CompletionStatus

pub record Envelope : Type 0 where
  pub id : Text
  pub agent : Text
  pub label : Option Text
  pub status : CompletionStatus
  pub output_preview : Option Text
  pub error : Option Text
  pub duration_ms : Option ℕ

abbrev pub output_preview_chars : ℕ
output_preview_chars = 4000

-- Date.parse of the two times, `none` where it is NaN.
duration_of : Option ℕ → Option ℕ → Option ℕ
duration_of (some started) (some ended) = if leb started ended then some (ended - started) else none
duration_of _ _ = none

envelope_with : (Text → Option ℕ) → ChildRunSnapshot → CompletionStatus → Envelope
unfolding duration_of
envelope_with parse_date run status = record {
  id = run.id;
  agent = run.agent;
  label = run.label;
  status = status;
  output_preview = Option.map (take output_preview_chars) run.output;
  error = run.error;
  duration_ms = duration_of (parse_date run.started_at) (Option.bind run.completed_at parse_date);
}

-- `parse_date` stands for Date.parse.
pub envelope_from_run : (Text → Option ℕ) → ChildRunSnapshot → Option Envelope
unfolding envelope_with
envelope_from_run parse_date run = elim run.status [
  | ChildRunStatus.completed ↦ some (envelope_with parse_date run completed)
  | ChildRunStatus.failed ↦ some (envelope_with parse_date run failed)
  | _ ↦ none
]

abbrev or_text : Option Text → Text → Text
or_text none t = t
or_text (some s) t = s

-- `a || b` on texts
abbrev if_truthy : Text → Text → Text
if_truthy s t = if truthy s then s else t

status_word : CompletionStatus → Text
status_word completed = codes "completed"
status_word failed = codes "failed"

label_text : Option Text → Text
label_text none = []
label_text (some l) = if truthy l then codes " — " ++ l else []

body_text : CompletionStatus → Option Text → Option Text → Text
body_text failed preview error = codes "Agent failed: " ++ or_text error (codes "unknown error")
body_text completed none error = codes "(no output)"
body_text completed (some p) error = if_truthy (trim p) (codes "(no output)")

pub block_text : Envelope → Text
unfolding status_word label_text body_text
block_text e =
    codes "["
    ++ (e.agent
        ++ (codes "] ("
            ++ (e.id
                ++ (codes ")"
                    ++ (label_text e.label
                        ++ (codes " ["
                            ++ (status_word e.status
                                ++ (codes "]\n"
                                    ++ body_text e.status e.output_preview e.error))))))))

abbrev notice_intro : Text
notice_intro =
    codes
      "The following background agent run(s) finished. This is a runtime notification, not a user message. Review the results, continue the task, and reply to the user with anything they need to know. Use the agent tool with action \"status\" and the run id for full output."

pub render_completion_notice : List Envelope → Text
unfolding block_text
render_completion_notice batch = join (codes "\n") (
    codes "<agent_run_completions>"
    ∷ notice_intro
    ∷ []
    ∷ join (codes "\n\n") (map block_text batch)
    ∷ codes "</agent_run_completions>"
    ∷ [])
