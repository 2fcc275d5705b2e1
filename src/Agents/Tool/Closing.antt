-- ===== src/Agents/Tool/Closing.antt =====
-- A run that the tool has closed is out of its reach.
use pi_recipes.Prelude.{
  Text, text_eq, text_eq_refl, true, false, List, [], ◌∷◌, Option, none, some, any, Option-cases,
  inl, inr, ◌≡◌, ◌≢◌, arith,
}
use pi_recipes.Agents.Tool.{execute, execute_all, start_run, status_all, manage, with_id}
use pi_recipes.Agents.Tool.Results.{
  Action, start_action, status_action, wait_action, message_action, interrupt_action, close_action,
  AgentToolInput, AgentRunController, ToolState, given,
}

module _ {S : Type 0} (controller : AgentRunController S) (agents : List Text) (id : Text) where
  abbrev IsClosedFor : ToolState S → Type 0
  IsClosedFor s = any (text_eq id) s.closed_run_ids ≡ true

  start_run-IsClosedFor :
      (name prompt label : Option Text) (s : ToolState S)
      → IsClosedFor s
      → IsClosedFor (start_run controller agents name prompt label s).1
  unfolding start_run
  start_run-IsClosedFor (some name) (some prompt) label s v = ground arith
  start_run-IsClosedFor (some name) none label s v = v
  start_run-IsClosedFor none prompt label s v = v

  manage-IsClosedFor :
      (action : Action) (run_id : Text) (message : Option Text) (s : ToolState S)
      → IsClosedFor s
      → IsClosedFor (manage controller agents action run_id message s).1
  unfolding manage
  manage-IsClosedFor start_action run_id message s v = v
  manage-IsClosedFor status_action run_id message s v = ground arith
  manage-IsClosedFor wait_action run_id message s v = ground arith
  manage-IsClosedFor message_action run_id none s v = v
  manage-IsClosedFor message_action run_id (some text) s v = ground arith
  manage-IsClosedFor interrupt_action run_id message s v = ground arith
  manage-IsClosedFor close_action run_id message s v = ground arith

  with_id-IsClosedFor :
      (action : Action) (params : AgentToolInput) (s : ToolState S)
      → IsClosedFor s
      → IsClosedFor (with_id controller agents action params s).1
  unfolding with_id
  with_id-IsClosedFor action params s v = elim (Option-cases (given params.id)) [
    | inl missing ↦ ground arith
    | inr (run_id, named) ↦
        ground (arith, manage-IsClosedFor action run_id (given params.message) s v)
  ]

  execute-IsClosedFor :
      (params : AgentToolInput) (s : ToolState S)
      → IsClosedFor s
      → IsClosedFor (execute controller agents params s).1
  unfolding execute status_all
  execute-IsClosedFor params s v = ground (
    arith,
    with_id-IsClosedFor status_action params s v,
    with_id-IsClosedFor wait_action params s v,
    with_id-IsClosedFor message_action params s v,
    with_id-IsClosedFor interrupt_action params s v,
    with_id-IsClosedFor close_action params s v,
    start_run-IsClosedFor (given params.name) (given params.prompt) params.label s v,
  )

  execute_all-IsClosedFor :
      (calls : List AgentToolInput) (s : ToolState S)
      → IsClosedFor s
      → IsClosedFor (execute_all controller agents calls s)
  unfolding execute_all
  execute_all-IsClosedFor [] s v = v
  execute_all-IsClosedFor (params ∷ rest) s v =
      execute_all-IsClosedFor rest (execute controller agents params s).1
        (execute-IsClosedFor params s v)

  with_id-refused :
      (action : Action) (params : AgentToolInput) (s : ToolState S)
      → given params.id ≡ some id
      → IsClosedFor s
      → ((with_id controller agents action params s).0.is_error ≡ true)
        × ((with_id controller agents action params s).1 ≡ s)
  unfolding with_id
  with_id-refused action params s e v = ground arith

  manage-closes :
      (message : Option Text) (s : ToolState S)
      → (manage controller agents close_action id message s).0.is_error ≡ false
      → IsClosedFor (manage controller agents close_action id message s).1
  unfolding manage
  manage-closes message s succeeds = ground (arith, text_eq_refl id)

  -- A call that closes the run and succeeds keeps its id.
  execute-closes :
      (params : AgentToolInput) (s : ToolState S)
      → given params.id ≡ some id
      → params.action ≡ some close_action
      → (execute controller agents params s).0.is_error ≡ false
      → IsClosedFor (execute controller agents params s).1
  unfolding execute with_id
  execute-closes params s named acts succeeds =
      ground (arith, manage-closes (given params.message) s)

  -- Once a call of the tool has closed a run, which is to say that it succeeded, every later call
  -- on that run, of whatever kind and after whatever other calls, is an error that leaves the
  -- controller and the tool as they were.
  pub closed_run_refused :
      (closing : AgentToolInput) (calls : List AgentToolInput) (s : ToolState S)
      (params : AgentToolInput) (action : Action)
      → given closing.id ≡ some id
      → closing.action ≡ some close_action
      → (execute controller agents closing s).0.is_error ≡ false
      → given params.id ≡ some id
      → params.action ≡ some action
      → action ≢ start_action
      → ((execute controller agents params
            (execute_all controller agents (closing ∷ calls) s)).0.is_error
          ≡ true)
        × ((execute controller agents params (execute_all controller agents (closing ∷ calls) s)).1
            ≡ execute_all controller agents (closing ∷ calls) s)
  unfolding execute execute_all
  closed_run_refused closing calls s params action closes_it closing_is succeeds named acts other =
      let s' = execute_all controller agents (closing ∷ calls) s in
      let kept =
        execute_all-IsClosedFor calls (execute controller agents closing s).1
          (execute-closes closing s closes_it closing_is succeeds) in
      let refused = with_id-refused action params s' named kept in ground (arith, refused)
