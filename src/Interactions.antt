-- ===== src/Interactions.antt =====
-- Interactions of recipe tools (src/interactions.ts): the channel that is chosen and its result.
-- `lower` stands for toLowerCase and `stringify` for JSON.stringify on a list of texts.
pub mod Requests
pub mod Walks
pub mod Channels
mod Tests
use pi_recipes.Prelude.{
  Text, codes, text_eq, Bool, true, false, not, ◌&&◌, ◌||◌, List, [], ◌∷◌, ◌++◌, Option, none, some,
  if◌then◌else◌,
}
use pi_recipes.Prelude.Texts.{given_trimmed, trim, truthy}
use pi_recipes.Json.{Json, null, bool, num, str, arr, obj, Items, nil, item, Fields, get}
use Requests.{
  AskUserOption, AskUserSelection, multiple, AskUserRequest, AskUserOutcome, answered, answered_all,
  approved, revision_requested, declined, awaiting_user, unavailable, is_approval_reason,
  normalize_options, normalize_texts,
}
use Walks.{Walk, settled, aborts, waits, UiReply, TuiReply, dialog_walk}

unfoldable pub flag_enabled : (Text → Text) → Option Text → Bool
flag_enabled lower none = false
flag_enabled lower (some value) =
    let normalized = lower (trim value) in
    truthy value
    && (truthy normalized
        && (not (text_eq normalized (codes "0")) && not (text_eq normalized (codes "false"))))

pub declined_envelope : Text
declined_envelope = codes "User declined to answer. Proceed with your best judgment."

pub awaiting_user_envelope : Text
awaiting_user_envelope = codes "Awaiting user response."

pub unavailable_envelope : Text
unavailable_envelope =
    codes
      "User interaction is unavailable in this session; nothing was shown to the user. Ask the user in your normal assistant reply instead, and continue after they respond."

with_feedback : Text → Option Text → Text
with_feedback verdict none = verdict ++ codes "."
with_feedback verdict (some feedback) =
    if truthy feedback then verdict ++ (codes ". Feedback: " ++ feedback) else verdict ++ codes "."

unfoldable pub format_interaction_outcome : (List Text → Text) → AskUserOutcome → Text
unfolding with_feedback declined_envelope awaiting_user_envelope unavailable_envelope
format_interaction_outcome stringify (answered answer) = codes "Answer: " ++ answer
format_interaction_outcome stringify (answered_all answers) = codes "Answers: " ++ stringify answers
format_interaction_outcome stringify (approved feedback) = with_feedback (codes "Approved") feedback
format_interaction_outcome stringify (revision_requested feedback) =
    with_feedback (codes "Revision requested") feedback
format_interaction_outcome stringify declined = declined_envelope
format_interaction_outcome stringify awaiting_user = awaiting_user_envelope
format_interaction_outcome stringify unavailable = unavailable_envelope

-- The texts of an array, for `normalizeAnswers` of a value of any kind.
unfoldable pub texts_of : Items → List Text
texts_of nil = []
texts_of (item (str s) rest) = s ∷ texts_of rest
texts_of (item _ rest) = texts_of rest

abbrev pub answers_of : Option Json → List Text
answers_of (some (arr items)) = normalize_texts (texts_of items)
answers_of _ = []

abbrev pub trimmed_field : Option Json → Option Text
trimmed_field (some (str s)) = given_trimmed (some s)
trimmed_field _ = none

abbrev pub payload_of : Option Json → Fields
payload_of (some (obj o)) = o
payload_of _ = Fields.end

-- `formatInteractionResume`; without the two recognised fields the status is told.
unfoldable pub format_interaction_resume : (List Text → Text) → Option Text → Option Json → Text
format_interaction_resume stringify status payload =
    let o = payload_of payload in
    let is_cancelled : Bool = elim status [
      | none ↦ false
      | some s ↦ text_eq s (codes "cancelled")
    ] in
    let told : Text = elim status [
      | none ↦ codes "Interrupt response received."
      | some s ↦
          if truthy s
          then codes "Interrupt response: " ++ s
          else codes "Interrupt response received."
    ] in
    let feedback = trimmed_field (get (codes "feedback") o) in
    let verdict : Text = elim (get (codes "approved") o) [
      | some (bool true) ↦ format_interaction_outcome stringify (approved feedback)
      | some (bool false) ↦ format_interaction_outcome stringify (revision_requested feedback)
      | _ ↦ told
    ] in
    let several : Text = elim (answers_of (get (codes "answers") o)) [
      | [] ↦ verdict
      | answer ∷ rest ↦ format_interaction_outcome stringify (answered_all (answer ∷ rest))
    ] in
    let body : Text = elim (trimmed_field (get (codes "answer") o)) [
      | some answer ↦ format_interaction_outcome stringify (answered answer)
      | none ↦ several
    ] in
    if is_cancelled then format_interaction_outcome stringify declined else body

-- What the tool runs in: whether it is a child's, the two flags, and the host's dialogs if it has
-- any, with what the custom walk gave and what the user replies.
pub record AskUserContext : Type 0 where
  pub auto_resolves : Bool
  pub auto_approve : Option Text
  pub interrupt_resume : Option Text
  pub has_ui : Bool
  pub custom : Option AskUserOutcome
  pub is_aborted : Bool
  pub tui : Option TuiReply
  pub replies : List UiReply

pub data AskUserResult : Type 0 where
  multiple_without_options aborted_error not_settled : AskUserResult
  finished : AskUserOutcome → Text → List AskUserOption → AskUserResult

unfoldable pub finished_result :
    (List Text → Text) → AskUserRequest → AskUserOutcome → AskUserResult
finished_result stringify request outcome =
    finished outcome (format_interaction_outcome stringify outcome)
      (normalize_options request.options)

unfoldable pub walk_result : (List Text → Text) → AskUserRequest → Walk → AskUserResult
walk_result stringify request (settled outcome) = finished_result stringify request outcome
walk_result stringify request aborts = aborted_error
walk_result stringify request waits = not_settled

abbrev pub is_multiple : Option AskUserSelection → Bool
is_multiple (some multiple) = true
is_multiple _ = false

abbrev pub has_none : List AskUserOption → Bool
has_none [] = true
has_none (_ ∷ _) = false

abbrev pub automatic : AskUserRequest → AskUserOutcome
automatic request = if is_approval_reason request.reason then approved none else declined

unfoldable pub dialog_result : (List Text → Text) → AskUserRequest → AskUserContext → AskUserResult
dialog_result stringify request ctx =
    let walked = walk_result stringify request (dialog_walk request ctx.tui ctx.replies) in
    if ctx.is_aborted then aborted_error else elim ctx.custom [
      | some outcome ↦ finished_result stringify request outcome
      | none ↦ walked
    ]

unfoldable pub ask_user :
    (Text → Text) → (List Text → Text) → AskUserRequest → AskUserContext → AskUserResult
ask_user lower stringify request ctx =
    if is_multiple request.selection && has_none (normalize_options request.options)
    then multiple_without_options
    else if ctx.auto_resolves
    then finished_result stringify request (automatic request)
    else if flag_enabled lower ctx.auto_approve
    then finished_result stringify request (automatic request)
    else if ctx.has_ui
    then dialog_result stringify request ctx
    else if flag_enabled lower ctx.interrupt_resume
    then finished_result stringify request awaiting_user
    else finished_result stringify request unavailable
