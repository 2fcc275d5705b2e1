-- ===== src/RecipeSession/Values.antt =====
-- The checks of the values of a session block (src/recipe-session.ts).
use pi_recipes.Prelude.{
  ℕ, Text, codes, text_eq, not, List, [], ◌∷◌, ◌++◌, Option, none, some, any, keep, if◌then◌else◌,
  ltb,
}
use pi_recipes.Prelude.Results.{Result, returns, throws, ◌>>=◌, ◌>>◌}
use pi_recipes.Json.{Json, bool, num, str, obj, natural, Fields, end, get, keys}
use pi_recipes.RecipeModel.{is_snake_case, option_field, unless_empty}

abbrev pub session_keys : List Text
session_keys =
    codes "steering_mode"
    ∷ codes "follow_up_mode"
    ∷ codes "tool_execution"
    ∷ codes "retry"
    ∷ codes "compaction"
    ∷ codes "images"
    ∷ []

pub data RecipeQueueMode : Type 0 where
  all_messages one_at_a_time : RecipeQueueMode

pub data RecipeToolExecutionMode : Type 0 where
  parallel sequential : RecipeToolExecutionMode

pub record RecipeAgentSessionConfig : Type 0 where
  pub steering_mode : Option RecipeQueueMode
  pub follow_up_mode : Option RecipeQueueMode
  pub tool_execution : Option RecipeToolExecutionMode
  pub settings : Option Fields

pub data SessionError : Type 0 where
  expected_object expected_boolean invalid_queue_mode : Text → SessionError
  unsupported_keys : Text → List Text → SessionError
  invalid_key : Text → Text → SessionError
  expected_integer : Text → ℕ → SessionError
  invalid_tool_execution : SessionError

unfoldable pub check_keys : Text → Fields → List Text → Result SessionError (Unit {0})
check_keys context value allowed =
    elim (keep (λ key. not (any (text_eq key) allowed)) (keys value)) [
      | [] ↦ returns tt
      | key ∷ rest ↦ throws (unsupported_keys context (key ∷ rest))
    ]

unfoldable pub check_snake_case : Text → List Text → Result SessionError (Unit {0})
check_snake_case context [] = returns tt
check_snake_case context (key ∷ rest) =
    let more = check_snake_case context rest in
    if not (is_snake_case key) then throws (invalid_key context key) else more

unfoldable pub session_object : Text → Json → Result SessionError Fields
session_object context (obj value) = check_snake_case context (keys value) >> returns value
session_object context _ = throws (expected_object context)

unfoldable pub optional_boolean : Text → Option Json → Result SessionError (Option Json)
optional_boolean key none = returns none
optional_boolean key (some (bool b)) = returns (some (bool b))
optional_boolean key (some _) = throws (expected_boolean key)

-- Number.isSafeInteger: below 2 ^ 53
unfoldable pub bounded_integer : Text → Option Json → ℕ → Result SessionError (Option Json)
bounded_integer key none min = returns none
bounded_integer key (some (num (natural n))) min =
    if not (ltb n 9007199254740992)
    then throws (expected_integer key min)
    else if ltb n min
    then throws (expected_integer key min)
    else returns (some (num (natural n)))
bounded_integer key (some _) min = throws (expected_integer key min)

abbrev object_value : Option Fields → Option Json
object_value none = none
object_value (some o) = some (obj o)

unfoldable pub parse_provider_retry : Text → Option Json → Result SessionError (Option Json)
parse_provider_retry context none = returns none
parse_provider_retry context (some value) = do
  data_object ← session_object context value
  check_keys context data_object
      (codes "timeout_ms" ∷ codes "max_retries" ∷ codes "max_retry_delay_ms" ∷ [])
  timeout_ms ←
      bounded_integer (context ++ codes ".timeout_ms") (get (codes "timeout_ms") data_object) 1
  max_retries ←
      bounded_integer (context ++ codes ".max_retries") (get (codes "max_retries") data_object) 0
  max_retry_delay_ms ←
      bounded_integer (context ++ codes ".max_retry_delay_ms")
        (get (codes "max_retry_delay_ms") data_object) 0
  returns (
      object_value (
        unless_empty (
          option_field (codes "timeoutMs") timeout_ms (
            option_field (codes "maxRetries") max_retries
              (option_field (codes "maxRetryDelayMs") max_retry_delay_ms end)))))

unfoldable pub parse_retry : Text → Option Json → Result SessionError (Option Json)
parse_retry context none = returns none
parse_retry context (some value) = do
  data_object ← session_object context value
  check_keys context data_object
      (codes "enabled" ∷ codes "max_retries" ∷ codes "base_delay_ms" ∷ codes "provider" ∷ [])
  enabled ← optional_boolean (context ++ codes ".enabled") (get (codes "enabled") data_object)
  max_retries ←
      bounded_integer (context ++ codes ".max_retries") (get (codes "max_retries") data_object) 0
  base_delay_ms ←
      bounded_integer (context ++ codes ".base_delay_ms") (get (codes "base_delay_ms") data_object)
        0
  provider ←
      parse_provider_retry (context ++ codes ".provider") (get (codes "provider") data_object)
  returns (
      object_value (
        unless_empty (
          option_field (codes "enabled") enabled (
            option_field (codes "maxRetries") max_retries (
              option_field (codes "baseDelayMs") base_delay_ms
                (option_field (codes "provider") provider end))))))

unfoldable pub parse_compaction : Text → Option Json → Result SessionError (Option Json)
parse_compaction context none = returns none
parse_compaction context (some value) = do
  data_object ← session_object context value
  check_keys context data_object
      (codes "enabled" ∷ codes "reserve_tokens" ∷ codes "keep_recent_tokens" ∷ [])
  enabled ← optional_boolean (context ++ codes ".enabled") (get (codes "enabled") data_object)
  reserve_tokens ←
      bounded_integer (context ++ codes ".reserve_tokens")
        (get (codes "reserve_tokens") data_object) 0
  keep_recent_tokens ←
      bounded_integer (context ++ codes ".keep_recent_tokens")
        (get (codes "keep_recent_tokens") data_object) 0
  returns (
      object_value (
        unless_empty (
          option_field (codes "enabled") enabled (
            option_field (codes "reserveTokens") reserve_tokens
              (option_field (codes "keepRecentTokens") keep_recent_tokens end)))))

unfoldable pub parse_images : Text → Option Json → Result SessionError (Option Json)
parse_images context none = returns none
parse_images context (some value) = do
  data_object ← session_object context value
  check_keys context data_object (codes "auto_resize" ∷ codes "block_images" ∷ [])
  auto_resize ←
      optional_boolean (context ++ codes ".auto_resize") (get (codes "auto_resize") data_object)
  block_images ←
      optional_boolean (context ++ codes ".block_images") (get (codes "block_images") data_object)
  returns (
      object_value (
        unless_empty (
          option_field (codes "autoResize") auto_resize
            (option_field (codes "blockImages") block_images end))))

unfoldable pub parse_queue_mode : Text → Option Json → Result SessionError (Option RecipeQueueMode)
parse_queue_mode key none = returns none
parse_queue_mode key (some (str s)) =
    if text_eq s (codes "all")
    then returns (some all_messages)
    else if text_eq s (codes "one-at-a-time")
    then returns (some one_at_a_time)
    else throws (invalid_queue_mode key)
parse_queue_mode key (some _) = throws (invalid_queue_mode key)

unfoldable pub parse_tool_execution :
    Option Json → Result SessionError (Option RecipeToolExecutionMode)
parse_tool_execution none = returns none
parse_tool_execution (some (str s)) =
    if text_eq s (codes "parallel")
    then returns (some parallel)
    else if text_eq s (codes "sequential")
    then returns (some sequential)
    else throws invalid_tool_execution
parse_tool_execution (some _) = throws invalid_tool_execution
