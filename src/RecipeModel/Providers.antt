-- ===== src/RecipeModel/Providers.antt =====
-- The `providers` of a block (src/recipe-model.ts).
use pi_recipes.Prelude.{Text, codes, text_eq, List, [], ◌∷◌, ◌++◌, Option, none, some, any, keep}
use pi_recipes.Prelude.Results.{Result, returns, throws, ◌>>=◌, ◌>>◌}
use pi_recipes.Json.{Json, Fields, get, keys}
use pi_recipes.RecipeModel.Config.{
  ModelPrefix, ai, model, ModelError, host_owned_routing, RecipeAgentModelAnthropicOptions,
  ProviderConfig,
}
use pi_recipes.RecipeModel.Values.{expect_object, optional_string_array, assert_known_keys}

abbrev pub legacy_provider_keys : List Text
legacy_provider_keys = codes "openrouter" ∷ codes "anthropic" ∷ []

abbrev pub ai_provider_keys : List Text
ai_provider_keys = codes "openrouter" ∷ codes "anthropic" ∷ codes "vercel_ai_gateway" ∷ []

abbrev pub openrouter_provider_keys : List Text
openrouter_provider_keys = codes "routing" ∷ []

abbrev pub legacy_openrouter_keys : List Text
legacy_openrouter_keys =
    codes "allow_fallbacks"
    ∷ codes "require_parameters"
    ∷ codes "data_collection"
    ∷ codes "zdr"
    ∷ codes "enforce_distillable_text"
    ∷ codes "order"
    ∷ codes "only"
    ∷ codes "ignore"
    ∷ codes "quantizations"
    ∷ codes "sort"
    ∷ codes "max_price"
    ∷ codes "preferred_min_throughput"
    ∷ codes "preferred_max_latency"
    ∷ []

abbrev pub anthropic_keys : List Text
anthropic_keys = codes "betas" ∷ codes "context_management" ∷ []

abbrev pub vercel_ai_gateway_keys : List Text
vercel_ai_gateway_keys = codes "routing" ∷ []

abbrev pub blocked_vercel_routing_keys : List Text
blocked_vercel_routing_keys = codes "byok" ∷ []

abbrev prefix_text : ModelPrefix → Text
prefix_text ai = codes "ai"
prefix_text model = codes "model"

-- Only the legacy block names the routing fields that there are.
unfoldable pub check_routing : ModelPrefix → Text → Fields → Result ModelError (Unit {0})
check_routing ai what o = returns tt
check_routing model what o = assert_known_keys what o legacy_openrouter_keys

unfoldable pub parse_openrouter_routing :
    ModelPrefix → Option Json → Result ModelError (Option Fields)
unfolding check_routing
parse_openrouter_routing prefix none = returns none
parse_openrouter_routing prefix (some value) = do
  let what = prefix_text prefix ++ codes ".providers.openrouter.routing"
  o ← expect_object what value
  check_routing prefix what o
  returns (some o)

unfoldable pub parse_openrouter_provider :
    ModelPrefix → Option Json → Result ModelError (Option Fields)
parse_openrouter_provider prefix none = returns none
parse_openrouter_provider prefix (some value) = do
  let what = prefix_text prefix ++ codes ".providers.openrouter"
  o ← expect_object what value
  assert_known_keys what o openrouter_provider_keys
  parse_openrouter_routing prefix (get (codes "routing") o)

unfoldable pub optional_object : Text → Option Json → Result ModelError (Option Json)
optional_object what none = returns none
optional_object what (some value) = expect_object what value >> returns (some value)

unfoldable pub parse_anthropic :
    ModelPrefix → Option Json → Result ModelError (Option RecipeAgentModelAnthropicOptions)
unfolding optional_object
parse_anthropic prefix none = returns none
parse_anthropic prefix (some value) = do
  let what = prefix_text prefix ++ codes ".providers.anthropic"
  o ← expect_object what value
  assert_known_keys what o anthropic_keys
  betas ← optional_string_array (what ++ codes ".betas") (get (codes "betas") o)
  context_management ←
      optional_object (what ++ codes ".context_management") (get (codes "context_management") o)
  returns (some (record { betas = betas; context_management = context_management }))

unfoldable pub parse_vercel_ai_gateway_routing : Option Json → Result ModelError (Option Fields)
parse_vercel_ai_gateway_routing none = returns none
parse_vercel_ai_gateway_routing (some value) = do
  o ← expect_object (codes "ai.providers.vercel_ai_gateway.routing") value
  elim (keep (λ k. any (text_eq k) blocked_vercel_routing_keys) (keys o)) [
    | [] ↦ returns (some o)
    | k ∷ rest ↦ throws (host_owned_routing (k ∷ rest))
  ]

unfoldable pub parse_vercel_ai_gateway : Option Json → Result ModelError (Option Fields)
parse_vercel_ai_gateway none = returns none
parse_vercel_ai_gateway (some value) = do
  let what = codes "ai.providers.vercel_ai_gateway"
  o ← expect_object what value
  assert_known_keys what o vercel_ai_gateway_keys
  parse_vercel_ai_gateway_routing (get (codes "routing") o)

abbrev pub provider_keys : ModelPrefix → List Text
provider_keys ai = ai_provider_keys
provider_keys model = legacy_provider_keys

unfoldable pub parse_gateway : ModelPrefix → Fields → Result ModelError (Option Fields)
parse_gateway ai o = parse_vercel_ai_gateway (get (codes "vercel_ai_gateway") o)
parse_gateway model o = returns none

unfoldable pub parse_provider_object : ModelPrefix → Fields → Result ModelError ProviderConfig
parse_provider_object prefix o = do
  assert_known_keys (prefix_text prefix ++ codes ".providers") o (provider_keys prefix)
  openrouter ← parse_openrouter_provider prefix (get (codes "openrouter") o)
  anthropic ← parse_anthropic prefix (get (codes "anthropic") o)
  vercel_ai_gateway ← parse_gateway prefix o
  returns (record {
    openrouter = openrouter;
    anthropic = anthropic;
    vercel_ai_gateway = vercel_ai_gateway;
  })

unfoldable pub parse_providers :
    ModelPrefix → Option Json → Result ModelError (Option ProviderConfig)
parse_providers prefix none = returns none
parse_providers prefix (some value) = do
  o ← expect_object (prefix_text prefix ++ codes ".providers") value
  config ← parse_provider_object prefix o
  returns (some config)
