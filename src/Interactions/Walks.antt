-- ===== src/Interactions/Walks.antt =====
-- The built-in dialogs (dialogWalk, multiSelectDialogWalk and multiSelectFallback of
-- src/interactions.ts) as functions of what the user replies, dialog by dialog.
use pi_recipes.Prelude.{
  ℕ, ◌+◌, Text, codes, text_eq, Bool, true, false, not, List, [], ◌∷◌, ◌++◌, Option, none, some,
  any, keep, find, if◌then◌else◌, ◌==◌,
}
use pi_recipes.Prelude.Texts.{distinct_texts, given_trimmed}
use pi_recipes.Interactions.Requests.{
  AskUserOption, multiple, AskUserRequest, AskUserOutcome, answered, answered_all, approved,
  revision_requested, declined, is_approval_reason, normalize_options, normalize_texts,
}

-- A reply to a dialog: the choice or text, `none` if it was dismissed, and whether the turn has
-- been aborted by then.
pub record UiReply : Type 0 where
  pub value : Option Text
  pub is_aborted : Bool

-- What the custom multiple choice gave: the positions chosen, and whether to type another answer.
pub record TuiReply : Type 0 where
  pub selected : Option (List ℕ × Bool)
  pub is_aborted : Bool

pub data Walk : Type 0 where
  settled : AskUserOutcome → Walk
  aborts waits : Walk

abbrev pub other : Text
other = codes "Other"

abbrev pub done_option : Text
done_option = codes "Done"

-- The dialog's reply, once it is there.
abbrev pub reply : List UiReply → (Option Text → List UiReply → Walk) → Walk
reply [] next = waits
reply (r ∷ rest) next = if r.is_aborted then aborts else next r.value rest

abbrev pub answer_of : Option Text → Walk
answer_of text = elim (given_trimmed text) [
  | none ↦ settled declined
  | some s ↦ settled (answered s)
]

abbrev pub answers_or_declined : List Text → AskUserOutcome
answers_or_declined [] = declined
answers_or_declined (answer ∷ rest) = answered_all (answer ∷ rest)

abbrev pub answer_text : AskUserOption → Text
answer_text option = elim (given_trimmed option.value) [ none ↦ option.label | some value ↦ value ]

abbrev pub mem_index : ℕ → List ℕ → Bool
mem_index i selected = any (λ j. j == i) selected

unfoldable pub picked : ℕ → List AskUserOption → List ℕ → List Text
picked i [] selected = []
picked i (option ∷ rest) selected =
    let after = picked (i + 1) rest selected in
    if mem_index i selected then answer_text option ∷ after else after

unfoldable pub selected_answers : List AskUserOption → List ℕ → List Text
selected_answers options selected = distinct_texts [] (picked 0 options selected)

-- choices.indexOf(choice) among the options' lines
unfoldable pub choice_index : ℕ → List AskUserOption → List ℕ → Text → Option ℕ
choice_index i [] selected choice = none
choice_index i (option ∷ rest) selected choice =
    let after = choice_index (i + 1) rest selected choice in
    let mark = if mem_index i selected then codes "[x] " else codes "[ ] " in
    if text_eq (mark ++ option.label) choice then some i else after

abbrev pub toggle : Option ℕ → List ℕ → List ℕ
toggle none selected = selected
toggle (some i) selected =
    if mem_index i selected then keep (λ j. not (j == i)) selected else i ∷ selected

-- The loop: with `typing` the next reply is the text of another answer.
unfoldable pub multi_select_fallback : List AskUserOption → Bool → List ℕ → List UiReply → Walk
multi_select_fallback options typing selected [] = waits
multi_select_fallback options true selected (r ∷ rest) =
    let again = multi_select_fallback options false selected rest in
    if r.is_aborted then aborts else elim (given_trimmed r.value) [
      | none ↦ again
      | some custom ↦
          settled
            (answered_all (normalize_texts (selected_answers options selected ++ (custom ∷ []))))
    ]
multi_select_fallback options false selected (r ∷ rest) =
    let type_another = multi_select_fallback options true selected rest in
    if r.is_aborted then aborts else elim r.value [
      | none ↦ settled declined
      | some choice ↦
          let go_on =
            multi_select_fallback options false
              (toggle (choice_index 0 options selected choice) selected) rest in
          if text_eq choice done_option
          then settled (answers_or_declined (selected_answers options selected))
          else if text_eq choice other
          then type_another
          else go_on
    ]

unfoldable pub tui_walk : List AskUserOption → TuiReply → List UiReply → Walk
tui_walk options tui replies = if tui.is_aborted then aborts else elim tui.selected [
  | none ↦ settled declined
  | some (selected, custom) ↦
      let answers = selected_answers options selected in
      if custom
      then reply replies (λ text _. elim (given_trimmed text) [
        | none ↦ settled (answers_or_declined answers)
        | some s ↦ settled (answered_all (normalize_texts (answers ++ (s ∷ []))))
      ])
      else settled (answers_or_declined answers)
]

unfoldable pub approval_walk : List UiReply → Walk
approval_walk replies = reply replies λ choice rest. elim choice [
  | none ↦ settled declined
  | some c ↦
      if text_eq c (codes "Approve")
      then settled (approved none)
      else reply rest λ feedback _. settled (revision_requested (given_trimmed feedback))
]

unfoldable pub single_walk : List AskUserOption → List UiReply → Walk
single_walk options replies = reply replies λ choice rest. elim choice [
  | none ↦ settled declined
  | some c ↦
      if text_eq c other
      then reply rest (λ text _. answer_of text)
      else settled (
          answered (elim (find (λ (o : AskUserOption). text_eq o.label c) options) [
            | none ↦ c
            | some option ↦ answer_text option
          ]))
]

unfoldable pub options_walk : AskUserRequest → Option TuiReply → List UiReply → Walk
options_walk request tui replies =
    let options = normalize_options request.options in
    elim request.selection [
      | some multiple ↦ elim tui [
        | none ↦ multi_select_fallback options false [] replies
        | some t ↦ tui_walk options t replies
      ]
      | _ ↦ single_walk options replies
    ]

unfoldable pub dialog_walk : AskUserRequest → Option TuiReply → List UiReply → Walk
dialog_walk request tui replies =
    if is_approval_reason request.reason then approval_walk replies else elim request.options [
      | [] ↦ reply replies λ text _. answer_of text
      | _ ∷ _ ↦ options_walk request tui replies
    ]
