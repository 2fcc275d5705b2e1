-- ===== src/RecipeSession.antt =====
-- The session block of an agent (src/recipe-session.ts). An error keeps what its message names.
pub mod Values
pub mod Merging
mod Tests
use pi_recipes.Prelude.{
  ℕ, Text, codes, text_eq, Bool, true, false, not, List, [], ◌∷◌, ◌++◌, Option, none, some, any,
  keep, if◌then◌else◌, ltb,
}
use pi_recipes.Prelude.Results.{Result, returns, throws, ◌>>=◌, ◌>>◌}
use pi_recipes.Json.{Json, bool, num, str, obj, natural, Fields, end, field, get, put, keys}
use pi_recipes.RecipeModel.{is_snake_case, option_field, unless_empty}
use pi_recipes.RecipeModel.Policy.{or_base, or_end}
use pi_recipes.RecipeSession.Values.{
  session_keys, RecipeQueueMode, RecipeAgentSessionConfig, SessionError, check_keys, parse_retry,
  parse_compaction, parse_images, parse_queue_mode, parse_tool_execution, all_messages,
  one_at_a_time, expected_object,
}

queue_mode_value : Option RecipeQueueMode → Option Json
queue_mode_value none = none
queue_mode_value (some all_messages) = some (str (codes "all"))
queue_mode_value (some one_at_a_time) = some (str (codes "one-at-a-time"))

-- `parsed`, or undefined where it has no key.
abbrev unless_unset : RecipeAgentSessionConfig → Option RecipeAgentSessionConfig
unless_unset config = elim config.settings [
  | some _ ↦ some config
  | none ↦ elim config.tool_execution [ some _ ↦ some config | none ↦ none ]
]

unfoldable pub parse_session_object : Fields → Result SessionError (Option RecipeAgentSessionConfig)
unfolding queue_mode_value
parse_session_object value = do
  check_keys (codes "session") value session_keys
  steering_mode ← parse_queue_mode (codes "steering_mode") (get (codes "steering_mode") value)
  follow_up_mode ← parse_queue_mode (codes "follow_up_mode") (get (codes "follow_up_mode") value)
  tool_execution ← parse_tool_execution (get (codes "tool_execution") value)
  retry ← parse_retry (codes "session.retry") (get (codes "retry") value)
  compaction ← parse_compaction (codes "session.compaction") (get (codes "compaction") value)
  images ← parse_images (codes "session.images") (get (codes "images") value)
  returns (
      unless_unset (record {
        steering_mode = steering_mode;
        follow_up_mode = follow_up_mode;
        tool_execution = tool_execution;
        settings = unless_empty (
            option_field (codes "steeringMode") (queue_mode_value steering_mode) (
              option_field (codes "followUpMode") (queue_mode_value follow_up_mode) (
                option_field (codes "retry") retry (
                  option_field (codes "compaction") compaction
                    (option_field (codes "images") images end)))));
      }))

unfoldable pub parse_recipe_agent_session_config :
    Option Json → Result SessionError (Option RecipeAgentSessionConfig)
parse_recipe_agent_session_config none = returns none
parse_recipe_agent_session_config (some (obj value)) = parse_session_object value
parse_recipe_agent_session_config (some _) = throws (expected_object (codes "session"))

-- `mergeObjects`: objects are merged key by key, all else is replaced.
unfoldable mutual
  pub merge_objects : Fields → Fields → Fields
  merge_objects base end = base
  merge_objects base (field key value rest) =
      merge_objects (put key (merge_value (get key base) value) base) rest

  pub merge_value : Option Json → Json → Json
  merge_value (some (obj old)) (obj value) = obj (merge_objects old value)
  merge_value _ value = value

unfoldable pub merge_session :
    RecipeAgentSessionConfig → RecipeAgentSessionConfig → RecipeAgentSessionConfig
merge_session base overlay =
    let settings = merge_objects (or_end base.settings) (or_end overlay.settings) in
    record {
      steering_mode = or_base overlay.steering_mode base.steering_mode;
      follow_up_mode = or_base overlay.follow_up_mode base.follow_up_mode;
      tool_execution = or_base overlay.tool_execution base.tool_execution;
      settings = or_base (unless_empty settings) (or_base overlay.settings base.settings);
    }

unfoldable pub merge_recipe_agent_session_config :
    Option RecipeAgentSessionConfig
    → Option RecipeAgentSessionConfig
    → Option RecipeAgentSessionConfig
merge_recipe_agent_session_config none overlay = overlay
merge_recipe_agent_session_config (some base) none = some base
merge_recipe_agent_session_config (some base) (some overlay) = some (merge_session base overlay)
