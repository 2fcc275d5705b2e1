-- ===== src/Interactions/Channels.antt =====
-- Where an approval comes from.
use pi_recipes.Prelude.{
  ℕ, Text, codes, text_eq, Bool, true, false, List, [], ◌∷◌, Option, none, some, Option-cases, inl,
  inr, ◌⊎◌, ◌≡◌, refl, arith,
}
use pi_recipes.Interactions.Requests.{
  AskUserOption, AskUserRequest, AskUserOutcome, approved, is_approval_reason, normalize_options,
}
use pi_recipes.Interactions.Walks.{
  Walk, settled, aborts, waits, UiReply, TuiReply, dialog_walk, multi_select_fallback, tui_walk,
  approval_walk, single_walk, options_walk, answers_or_declined, selected_answers, toggle,
  choice_index,
}
use pi_recipes.Interactions.{
  AskUserContext, AskUserResult, finished, ask_user, dialog_result, walk_result, finished_result,
  flag_enabled,
}

abbrev pub is_approval : AskUserOutcome → Bool
is_approval (approved _) = true
is_approval _ = false

abbrev pub approves : Walk → Bool
approves (settled outcome) = is_approval outcome
approves _ = false

abbrev pub is_approved : AskUserResult → Bool
is_approved (finished outcome _ _) = is_approval outcome
is_approved _ = false

-- The first reply is the choice of `Approve`.
abbrev pub chose_approve : List UiReply → Bool
chose_approve [] = false
chose_approve (r ∷ _) = elim r.value [ none ↦ false | some c ↦ text_eq c (codes "Approve") ]

Walk-cases : (w : Walk) → ((o : AskUserOutcome) × (w ≡ settled o)) ⊎ (w ≡ aborts) ⊎ (w ≡ waits)
Walk-cases (settled o) = inl (o, refl)
Walk-cases aborts = inr (inl refl)
Walk-cases waits = inr (inr refl)

not_approved-list : (answers : List Text) → is_approval (answers_or_declined answers) ≡ false
not_approved-list [] = refl
not_approved-list (_ ∷ _) = refl

multi_select_fallback-approves :
    (options : List AskUserOption) (typing : Bool) (selected : List ℕ) (replies : List UiReply)
    → approves (multi_select_fallback options typing selected replies) ≡ false
unfolding multi_select_fallback
multi_select_fallback-approves options true selected [] = refl
multi_select_fallback-approves options false selected [] = refl
multi_select_fallback-approves options true selected (r ∷ rest) =
    ground (arith, multi_select_fallback-approves options false selected rest)
multi_select_fallback-approves options false selected (r ∷ rest) = elim (Option-cases r.value) [
  | inl dismissed ↦ ground arith
  | inr (choice, chosen) ↦ ground (
    arith,
    multi_select_fallback-approves options true selected rest,
    multi_select_fallback-approves options false
        (toggle (choice_index 0 options selected choice) selected) rest,
    not_approved-list (selected_answers options selected),
  )
]

tui_walk-approves :
    (options : List AskUserOption) (tui : TuiReply) (replies : List UiReply)
    → approves (tui_walk options tui replies) ≡ false
unfolding tui_walk
tui_walk-approves options tui [] = elim (Option-cases tui.selected) [
  | inl dismissed ↦ ground arith
  | inr ((selected, custom), chosen) ↦
      ground (arith, not_approved-list (selected_answers options selected))
]
tui_walk-approves options tui (r ∷ rest) = elim (Option-cases tui.selected) [
  | inl dismissed ↦ ground arith
  | inr ((selected, custom), chosen) ↦
      ground (arith, not_approved-list (selected_answers options selected))
]

single_walk-approves :
    (options : List AskUserOption) (replies : List UiReply)
    → approves (single_walk options replies) ≡ false
unfolding single_walk
single_walk-approves options [] = refl
single_walk-approves options (r ∷ []) = ground arith
single_walk-approves options (r ∷ t ∷ rest) = ground arith

options_walk-approves :
    (request : AskUserRequest) (tui : Option TuiReply) (replies : List UiReply)
    → approves (options_walk request tui replies) ≡ false
unfolding options_walk
options_walk-approves request none replies = ground (
  arith,
  multi_select_fallback-approves (normalize_options request.options) false [] replies,
  single_walk-approves (normalize_options request.options) replies,
)
options_walk-approves request (some tui) replies = ground (
  arith,
  tui_walk-approves (normalize_options request.options) tui replies,
  single_walk-approves (normalize_options request.options) replies,
)

approval_walk-approves :
    (replies : List UiReply)
    → approves (approval_walk replies) ≡ true
    → chose_approve replies ≡ true
unfolding approval_walk
approval_walk-approves [] e = ground arith
approval_walk-approves (r ∷ []) e = ground arith
approval_walk-approves (r ∷ t ∷ rest) e = ground arith

dialog_walk-approves :
    (request : AskUserRequest) (tui : Option TuiReply) (replies : List UiReply)
    → approves (dialog_walk request tui replies) ≡ true
    → (is_approval_reason request.reason ≡ true) × (chose_approve replies ≡ true)
unfolding dialog_walk
dialog_walk-approves request tui [] e =
    ground (arith, options_walk-approves request tui [], approval_walk-approves [])
dialog_walk-approves request tui (r ∷ rest) e =
    ground (arith, options_walk-approves request tui (r ∷ rest), approval_walk-approves (r ∷ rest))

-- No approval is made up: unless the caller's own walk gave it, a request is approved only if it
-- asks for an approval, and only in a child's session, by the flag of automatic approval, or with
-- dialogs to show and `Approve` as the user's first choice.
pub ask_user-approval :
    (lower : Text → Text) (stringify : List Text → Text) (request : AskUserRequest)
    (ctx : AskUserContext)
    → ctx.custom ≡ none
    → is_approved (ask_user lower stringify request ctx) ≡ true
    → (is_approval_reason request.reason ≡ true)
      × ((ctx.auto_resolves ≡ true)
          ⊎ (flag_enabled lower ctx.auto_approve ≡ true)
          ⊎ ((ctx.has_ui ≡ true) × (chose_approve ctx.replies ≡ true)))
unfolding ask_user dialog_result walk_result finished_result
ask_user-approval lower stringify request ctx own e =
    elim (Walk-cases (dialog_walk request ctx.tui ctx.replies)) [
      | inl (outcome, walked) ↦ ground (arith, dialog_walk-approves request ctx.tui ctx.replies)
      | inr (inl aborted) ↦ ground arith
      | inr (inr waiting) ↦ ground arith
    ]
