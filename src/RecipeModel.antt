-- ===== src/RecipeModel.antt =====
-- The model configuration of an agent (src/recipe-model.ts): parsing of the `ai:` and `model:`
-- blocks. `upper` stands for toUpperCase on one character.
pub mod Config
pub mod Values
pub mod Providers
pub mod Policy
pub mod Lacking
pub mod Parsed
pub mod HostOwned
pub mod Merging
mod Tests
use pi_recipes.Prelude.{
  ℕ, Text, codes, text_eq, Bool, true, false, not, List, [], ◌∷◌, Option, none, some, any,
  if◌then◌else◌, ◌==◌,
}
use pi_recipes.Prelude.Results.{Result, returns, throws, ◌>>=◌, ◌>>◌}
use pi_recipes.Prelude.Texts.{is_lower, is_digit}
use pi_recipes.Json.{Json, str, obj, num, Fields, end, field, get, put, keys}
use Config.{
  RecipeAgentModelConfig, ModelPrefix, ai, model, ModelError, host_owned_option, non_snake_case_key,
  unsupported_value, ProviderConfig, has_keys,
}
use Values.{
  expect_object, optional_string, optional_number, optional_integer, parse_thinking_level,
  assert_known_keys,
}
use Providers.{parse_providers}

abbrev pub model_keys : List Text
model_keys =
    codes "name"
    ∷ codes "thinking_level"
    ∷ codes "temperature"
    ∷ codes "max_tokens"
    ∷ codes "cache_retention"
    ∷ codes "timeout_ms"
    ∷ codes "max_retries"
    ∷ codes "max_retry_delay_ms"
    ∷ codes "providers"
    ∷ []

abbrev pub ai_keys : List Text
ai_keys = codes "model" ∷ codes "thinking_level" ∷ codes "options" ∷ codes "providers" ∷ []

abbrev pub cache_retentions : List Text
cache_retentions = codes "none" ∷ codes "short" ∷ codes "long" ∷ []

abbrev pub blocked_ai_option_keys : List Text
blocked_ai_option_keys =
    codes "apiKey"
    ∷ codes "azureApiVersion"
    ∷ codes "azureBaseUrl"
    ∷ codes "azureDeploymentName"
    ∷ codes "azureResourceName"
    ∷ codes "bearerToken"
    ∷ codes "client"
    ∷ codes "env"
    ∷ codes "fetch"
    ∷ codes "headers"
    ∷ codes "location"
    ∷ codes "onPayload"
    ∷ codes "onResponse"
    ∷ codes "profile"
    ∷ codes "project"
    ∷ codes "reasoning"
    ∷ codes "region"
    ∷ codes "sessionId"
    ∷ codes "signal"
    ∷ codes "telemetryContext"
    ∷ codes "transformHeaders"
    ∷ []

abbrev pub is_blocked : Text → Bool
is_blocked key = any (text_eq key) blocked_ai_option_keys

abbrev pub is_alnum : ℕ → Bool
is_alnum c = if is_lower c then true else is_digit c

-- What may follow in a key of SNAKE_CASE_KEY, with whether an underscore stands before.
unfoldable pub snake_rest : Bool → Text → Bool
snake_rest after_underscore [] = not after_underscore
snake_rest after_underscore (c ∷ s) =
    let word = snake_rest false s in
    let next = snake_rest true s in
    if is_alnum c
    then word
    else if c == b'_'
    then (if after_underscore then false else next)
    else false

-- /^[a-z][a-z0-9]*(?:_[a-z0-9]+)*$/
unfoldable pub is_snake_case : Text → Bool
is_snake_case [] = false
is_snake_case (c ∷ s) = if is_lower c then snake_rest false s else false

-- key.replace(/_([a-z0-9])/g, …), with whether an underscore stands before that may go.
unfoldable pub camel : (ℕ → ℕ) → Bool → Text → Text
camel upper true [] = b'_' ∷ []
camel upper false [] = []
camel upper true (c ∷ s) =
    let word = camel upper false s in
    let again = camel upper true s in
    if is_alnum c then upper c ∷ word else if c == b'_' then b'_' ∷ again else b'_' ∷ c ∷ word
camel upper false (c ∷ s) =
    let word = camel upper false s in
    let again = camel upper true s in if c == b'_' then again else c ∷ word

unfoldable pub snake_to_camel : (ℕ → ℕ) → Text → Text
snake_to_camel upper key = camel upper false key

-- The loop of `normalizeSnakeCaseObject` over the entries, with what is normalised so far.
unfoldable pub normalize_entries : (ℕ → ℕ) → Fields → Fields → Result ModelError Fields
normalize_entries upper done end = returns done
normalize_entries upper done (field key child rest) =
    let normalized_key = snake_to_camel upper key in
    let more = normalize_entries upper (put normalized_key child done) rest in
    if not (is_snake_case key)
    then throws (non_snake_case_key key)
    else if is_blocked normalized_key
    then throws (host_owned_option key)
    else more

unfoldable pub normalize_snake_case_object : (ℕ → ℕ) → Json → Result ModelError Fields
normalize_snake_case_object upper value = do
  let expected = expect_object (codes "ai.options") value
  options ← expected
  normalize_entries upper end options

-- An option of the request, if it is given.
abbrev pub option_field : Text → Option Json → Fields → Fields
option_field key none rest = rest
option_field key (some value) rest = field key value rest

abbrev pub text_value : Option Text → Option Json
text_value none = none
text_value (some s) = some (str s)

unfoldable pub check_retention : Option Text → Result ModelError (Option Text)
check_retention none = returns none
check_retention (some s) =
    if any (text_eq s) cache_retentions
    then returns (some s)
    else throws (unsupported_value (codes "model.cache_retention"))

-- { … } or nothing, by `hasKeys`.
abbrev pub unless_empty : Fields → Option Fields
unless_empty end = none
unless_empty (field k v o) = some (field k v o)

abbrev pub with_providers :
    Option Text → Option Text → Option Fields → Option ProviderConfig → RecipeAgentModelConfig
with_providers name thinking_level stream_options none = record {
  name = name;
  thinking_level = thinking_level;
  stream_options = stream_options;
  openrouter = none;
  anthropic = none;
  vercel_ai_gateway = none;
}
with_providers name thinking_level stream_options (some p) = record {
  name = name;
  thinking_level = thinking_level;
  stream_options = stream_options;
  openrouter = p.openrouter;
  anthropic = p.anthropic;
  vercel_ai_gateway = p.vercel_ai_gateway;
}

-- The stream options of a legacy block, in the order of the source.
unfoldable pub parse_stream_options : Fields → Result ModelError Fields
unfolding check_retention
parse_stream_options o = do
  retention ← optional_string (codes "model.cache_retention") (get (codes "cache_retention") o)
  cache_retention ← check_retention retention
  temperature ← optional_number (codes "model.temperature") (get (codes "temperature") o) 0
  max_tokens ← optional_integer (codes "model.max_tokens") (get (codes "max_tokens") o) 1
  timeout_ms ← optional_integer (codes "model.timeout_ms") (get (codes "timeout_ms") o) 1
  max_retries ← optional_integer (codes "model.max_retries") (get (codes "max_retries") o) 0
  max_retry_delay_ms ←
      optional_integer (codes "model.max_retry_delay_ms") (get (codes "max_retry_delay_ms") o) 0
  returns (
      option_field (codes "temperature") temperature (
        option_field (codes "maxTokens") max_tokens (
          option_field (codes "cacheRetention") (text_value cache_retention) (
            option_field (codes "timeoutMs") timeout_ms (
              option_field (codes "maxRetries") max_retries
                (option_field (codes "maxRetryDelayMs") max_retry_delay_ms end))))))

unfoldable pub parse_model_object : Fields → Result ModelError RecipeAgentModelConfig
parse_model_object o = do
  assert_known_keys (codes "model") o model_keys
  thinking_level ←
      parse_thinking_level (codes "model.thinking_level") (get (codes "thinking_level") o)
  stream_options ← parse_stream_options o
  name ← optional_string (codes "model.name") (get (codes "name") o)
  providers ← parse_providers model (get (codes "providers") o)
  returns (with_providers name thinking_level (unless_empty stream_options) providers)

-- The legacy `model:` block.
unfoldable pub parse_recipe_agent_model_config :
    Option Json → Result ModelError (Option RecipeAgentModelConfig)
parse_recipe_agent_model_config none = returns none
parse_recipe_agent_model_config (some value) = do
  o ← expect_object (codes "model") value
  config ← parse_model_object o
  returns (some config)

unfoldable pub parse_options : (ℕ → ℕ) → Option Json → Result ModelError (Option Fields)
parse_options upper none = returns none
parse_options upper (some value) = do
  options ← normalize_snake_case_object upper value
  returns (unless_empty options)

unfoldable pub parse_ai_object : (ℕ → ℕ) → Fields → Result ModelError RecipeAgentModelConfig
parse_ai_object upper o = do
  assert_known_keys (codes "ai") o ai_keys
  name ← optional_string (codes "ai.model") (get (codes "model") o)
  thinking_level ← parse_thinking_level (codes "ai.thinking_level") (get (codes "thinking_level") o)
  stream_options ← parse_options upper (get (codes "options") o)
  providers ← parse_providers ai (get (codes "providers") o)
  returns (with_providers name thinking_level stream_options providers)

-- The preferred `ai:` block.
unfoldable pub parse_recipe_agent_ai_config :
    (ℕ → ℕ) → Option Json → Result ModelError (Option RecipeAgentModelConfig)
parse_recipe_agent_ai_config upper none = returns none
parse_recipe_agent_ai_config upper (some value) = do
  o ← expect_object (codes "ai") value
  config ← parse_ai_object upper o
  returns (some config)
