-- ===== src/Agents/Tool/Acknowledging.antt =====
-- Which completions the tool acknowledges: those that its reply has shown.
use pi_recipes.Prelude.{
  Text, codes, text_eq, text_eq_iff, Bool, true, false, ◌&&◌, ◌||◌, List, [], ◌∷◌, ◌++◌, map, keep,
  Option, none, some, any, Option-cases, inl, inr, ◌⊎◌, ◌≡◌, refl, arith,
}
use pi_recipes.Agents.{AgentRunSummary}
use pi_recipes.Agents.Tool.{after, acknowledge, execute, start_run, status_all, manage, with_id}
use pi_recipes.Agents.Tool.Results.{
  Action, start_action, status_action, wait_action, message_action, interrupt_action, close_action,
  AgentToolInput, AgentRunController, Outcome, threw, gave, result, status_block, ToolState,
  ToolResult, Details, of_agent, of_agents, of_error, terminal, given, run_line,
}

-- The runs that a reply shows.
abbrev pub shown : Details → List AgentRunSummary
shown (of_agent run _) = run ∷ []
shown (of_agents runs _) = runs
shown (of_error _) = []

-- The reply shows the end of the run.
abbrev pub shows_end : Text → ToolResult → Bool
shows_end id reply =
    any (λ (r : AgentRunSummary). terminal r && text_eq id r.agent_run_id) (shown reply.details)

any-append_ids :
    (id : Text) (xs ys : List Text)
    → any (text_eq id) (xs ++ ys) ≡ (any (text_eq id) xs || any (text_eq id) ys)
any-append_ids id [] ys = refl
any-append_ids id (x ∷ xs) ys = ground (arith, any-append_ids id xs ys)

any-ends :
    (id : Text) (runs : List AgentRunSummary)
    → any (text_eq id) (
        map
          (λ (r : AgentRunSummary). r.agent_run_id)
          (keep (λ (r : AgentRunSummary). terminal r) runs))
      ≡ any (λ (r : AgentRunSummary). terminal r && text_eq id r.agent_run_id) runs
any-ends id [] = refl
any-ends id (run ∷ runs) = ground (arith, any-ends id runs)

module _ {S : Type 0} (controller : AgentRunController S) (agents : List Text) (id : Text) where
  -- The call closes this run, and it succeeds.
  abbrev pub Closes : Option Action → Option Text → ToolResult → Type 0
  Closes action named reply =
      (action ≡ some close_action) × (named ≡ some id) × (reply.is_error ≡ false)

  -- An id is acknowledged newly only with the end of its run in the reply, or by its closing.
  abbrev IsJustified : Option Action → Option Text → ToolState S → ToolResult × ToolState S → Type 0
  IsJustified action named s (reply, s') =
      any (text_eq id) s'.acknowledged ≡ true
      → (any (text_eq id) s.acknowledged ≡ true)
        ⊎ (shows_end id reply ≡ true)
        ⊎ Closes action named reply

  waited-IsJustified :
      (outcome : Outcome AgentRunSummary × S) (run_id : Text) (s : ToolState S)
      → IsJustified (some wait_action) (some run_id) s (
          after controller agents wait_action
            (λ run s'. (result run (status_block run), acknowledge controller agents run s'))
            outcome
            s)
  waited-IsJustified (threw message, runs) run_id s = ground arith
  waited-IsJustified (gave run, runs) run_id s =
      ground (arith, any-append_ids id s.acknowledged (run.agent_run_id ∷ []))

  closed-IsJustified :
      (outcome : Outcome AgentRunSummary × S) (run_id : Text) (s : ToolState S)
      → IsJustified (some close_action) (some run_id) s (
          after controller agents close_action
            (λ run s'. (
              result run (codes "Closed " ++ run_line run),
              record s' {
                closed_run_ids = run_id ∷ s'.closed_run_ids;
                acknowledged = s'.acknowledged ++ (run_id ∷ []);
              },
            ))
            outcome
            s)
  closed-IsJustified (threw message, runs) run_id s = ground arith
  closed-IsJustified (gave run, runs) run_id s =
      ground (arith, any-append_ids id s.acknowledged (run_id ∷ []), text_eq_iff id run_id)

  manage-IsJustified :
      (action : Action) (run_id : Text) (message : Option Text) (s : ToolState S)
      → IsJustified (some action) (some run_id) s (manage controller agents action run_id message s)
  unfolding manage
  manage-IsJustified start_action run_id message s = ground arith
  manage-IsJustified status_action run_id message s =
      elim (Option-cases (controller.get run_id s.runs)) [
        | inl missing ↦ ground arith
        | inr (run, found) ↦
            ground (arith, any-append_ids id s.acknowledged (run.agent_run_id ∷ []))
      ]
  manage-IsJustified wait_action run_id message s =
      waited-IsJustified (controller.wait run_id s.runs) run_id s
  manage-IsJustified message_action run_id none s = ground arith
  manage-IsJustified message_action run_id (some text) s = ground arith
  manage-IsJustified interrupt_action run_id message s = ground arith
  manage-IsJustified close_action run_id message s =
      closed-IsJustified (controller.close run_id s.runs) run_id s

  with_id-IsJustified :
      (action : Action) (params : AgentToolInput) (s : ToolState S)
      → IsJustified (some action) (given params.id) s (with_id controller agents action params s)
  unfolding with_id
  with_id-IsJustified action params s = elim (Option-cases (given params.id)) [
    | inl missing ↦ ground arith
    | inr (run_id, named) ↦
        ground (arith, manage-IsJustified action run_id (given params.message) s)
  ]

  start_run-IsJustified :
      (action : Option Action) (named name prompt label : Option Text) (s : ToolState S)
      → IsJustified action named s (start_run controller agents name prompt label s)
  unfolding start_run
  start_run-IsJustified action named (some name) (some prompt) label s = ground arith
  start_run-IsJustified action named (some name) none label s = inl
  start_run-IsJustified action named none prompt label s = inl

  status_all-IsJustified :
      (action : Option Action) (named : Option Text) (s : ToolState S)
      → IsJustified action named s (status_all controller agents s)
  unfolding status_all
  status_all-IsJustified action named s =
      let runs = controller.list s.runs in
      let ends = any-ends id runs in
      ground (
        arith,
        ends,
        any-append_ids id s.acknowledged (
            map (λ (r : AgentRunSummary). r.agent_run_id)
              (keep (λ (r : AgentRunSummary). terminal r) runs)),
      )

  -- The tool acknowledges a completion only if it was acknowledged before, if its reply shows the
  -- end of that run, or if the call closes that run and succeeds.
  pub execute_acknowledges :
      (params : AgentToolInput) (s : ToolState S)
      → any (text_eq id) (execute controller agents params s).1.acknowledged ≡ true
      → (any (text_eq id) s.acknowledged ≡ true)
        ⊎ (shows_end id (execute controller agents params s).0 ≡ true)
        ⊎ Closes params.action (given params.id) (execute controller agents params s).0
  unfolding execute
  execute_acknowledges params s = ground (
    arith,
    with_id-IsJustified status_action params s,
    with_id-IsJustified wait_action params s,
    with_id-IsJustified message_action params s,
    with_id-IsJustified interrupt_action params s,
    with_id-IsJustified close_action params s,
    start_run-IsJustified params.action (given params.id) (given params.name) (given params.prompt)
        params.label s,
    status_all-IsJustified params.action (given params.id) s,
  )
