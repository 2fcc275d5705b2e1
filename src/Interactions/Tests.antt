-- ===== src/Interactions/Tests.antt =====
-- A request for an approval that the user grants.
use pi_recipes.Prelude.{codes, text_eq, true, false, [], ◌∷◌, none, some, ◌≡◌, ◌⊎◌, refl}
use pi_recipes.Interactions.Requests.{AskUserRequest, is_approval_reason}
use pi_recipes.Interactions.Walks.{dialog_walk}
use pi_recipes.Interactions.{AskUserContext, ask_user, flag_enabled}
use pi_recipes.Interactions.Channels.{is_approved, chose_approve, ask_user-approval}

abbrev deploy : AskUserRequest
deploy = record {
  reason = codes "confirmation";
  message = codes "Deploy?";
  options = [];
  selection = none;
  metadata = none;
  display = none;
  expires_at = none;
}

abbrev at_terminal : AskUserContext
at_terminal = record {
  auto_resolves = false;
  auto_approve = none;
  interrupt_resume = none;
  has_ui = true;
  custom = none;
  is_aborted = false;
  tui = none;
  replies = record { value = some (codes "Approve"); is_aborted = false } ∷ [];
}

is_granted : is_approved (ask_user (λ s. s) (λ l. []) deploy at_terminal) ≡ true
unfolding ask_user pi_recipes.Interactions.dialog_result pi_recipes.Interactions.walk_result
    pi_recipes.Interactions.finished_result flag_enabled dialog_walk
    pi_recipes.Interactions.Walks.approval_walk is_approval_reason text_eq
    pi_recipes.Interactions.Requests.normalize_options
is_granted = refl

ask_user-approval_example :
    (is_approval_reason (codes "confirmation") ≡ true)
    × ((at_terminal.auto_resolves ≡ true)
        ⊎ (flag_enabled (λ s. s) none ≡ true)
        ⊎ ((at_terminal.has_ui ≡ true) × (chose_approve at_terminal.replies ≡ true)))
ask_user-approval_example = ask_user-approval (λ s. s) (λ l. []) deploy at_terminal refl is_granted
