-- ===== src/Interactions/Requests.antt =====
-- Requests, outcomes and the normalisation of options and answers (src/interactions.ts).
use pi_recipes.Prelude.{
  Text, codes, text_eq, Bool, ◌||◌, List, [], ◌∷◌, ◌++◌, Option, none, some, if◌then◌else◌, map,
  keep,
}
use pi_recipes.Prelude.Texts.{distinct_texts, given_trimmed, trim, truthy, join}
use pi_recipes.Json.{Fields}

pub data AskUserSelection : Type 0 where
  single multiple : AskUserSelection

pub record DisplaySection : Type 0 where
  pub title : Text
  pub body : Option Text
  pub items : List Text

pub record AskUserDisplay : Type 0 where
  pub kind : Text
  pub title : Option Text
  pub body : Option Text
  pub sections : List DisplaySection

pub record AskUserOption : Type 0 where
  pub label : Text
  pub value : Option Text
  pub description : Option Text

-- An option as a request gives it.
pub data OptionInput : Type 0 where
  label_only : Text → OptionInput
  full : AskUserOption → OptionInput

pub record AskUserRequest : Type 0 where
  pub reason : Text
  pub message : Text
  pub options : List OptionInput
  pub selection : Option AskUserSelection
  pub metadata : Option Fields
  pub display : Option AskUserDisplay
  pub expires_at : Option Text

pub data AskUserOutcome : Type 0 where
  answered : Text → AskUserOutcome
  answered_all : List Text → AskUserOutcome
  approved revision_requested : Option Text → AskUserOutcome
  declined awaiting_user unavailable : AskUserOutcome

unfoldable pub is_approval_reason : Text → Bool
is_approval_reason reason =
    text_eq reason (codes "confirmation") || text_eq reason (codes "tool_call")

abbrev normalized : AskUserOption → List AskUserOption → List AskUserOption
normalized option rest =
    if truthy (trim option.label)
    then record {
      label = trim option.label;
      value = given_trimmed option.value;
      description = given_trimmed option.description;
    }
      ∷ rest
    else rest

unfoldable pub normalize_options : List OptionInput → List AskUserOption
normalize_options [] = []
normalize_options (label_only label ∷ rest) =
    let after = normalize_options rest in
    normalized (record { label = label; value = none; description = none }) after
normalize_options (full option ∷ rest) =
    let after = normalize_options rest in normalized option after

-- `normalizeAnswers` of texts
unfoldable pub normalize_texts : List Text → List Text
normalize_texts answers = distinct_texts [] (keep truthy (map trim answers))

section_lines : DisplaySection → List Text
section_lines section =
    let title = trim section.title in
    let items = keep truthy (map trim section.items) in
    let title_lines : List Text = if truthy title then (title ++ codes ":") ∷ [] else [] in
    let body_lines : List Text = elim (given_trimmed section.body) [
      | none ↦ []
      | some body ↦ body ∷ []
    ] in
    let lines = title_lines ++ (body_lines ++ map (λ i. codes "- " ++ i) items) in
    elim lines [ [] ↦ [] | line ∷ more ↦ [] ∷ line ∷ more ]

all_section_lines : List DisplaySection → List Text
unfolding section_lines
all_section_lines [] = []
all_section_lines (section ∷ rest) = section_lines section ++ all_section_lines rest

pub local_dialog_message : AskUserRequest → Text
unfolding all_section_lines
local_dialog_message request = elim request.display [
  | none ↦ request.message
  | some display ↦
      let heading : Text = elim (given_trimmed display.title) [
        | none ↦ request.message
        | some title ↦ title
      ] in
      let body : List Text = elim (given_trimmed display.body) [
        | none ↦ []
        | some text ↦ [] ∷ text ∷ []
      ] in
      join (codes "\n") (heading ∷ (body ++ all_section_lines display.sections))
]
