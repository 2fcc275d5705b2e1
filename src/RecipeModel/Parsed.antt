-- ===== src/RecipeModel/Parsed.antt =====
-- Nothing that the parsers of src/recipe-model.ts read sets an option of the host's.
use pi_recipes.Prelude.{
  ℕ, Text, codes, text_eq, text_eq_iff, Bool, true, false, not, Option, none, some, any, keep,
  if-keeps, Option-cases, List-cases, inl, inr, ◌≡◌, refl, ap, arith,
}
use pi_recipes.Prelude.Results.{Ensures, then-Ensures, then_any-Ensures}
use pi_recipes.Json.{Json, obj, Fields, end, field, get, put, keys}
use pi_recipes.RecipeModel.Config.{RecipeAgentModelConfig, ProviderConfig, ai, model, ModelPrefix}
use pi_recipes.RecipeModel.Values.{
  expect_object, optional_string, optional_number, optional_integer, parse_thinking_level,
  assert_known_keys,
}
use pi_recipes.RecipeModel.Providers.{
  parse_providers, parse_provider_object, parse_gateway, parse_openrouter_provider, parse_anthropic,
  parse_vercel_ai_gateway, parse_vercel_ai_gateway_routing, blocked_vercel_routing_keys,
}
use pi_recipes.RecipeModel.{
  is_blocked, normalize_entries, normalize_snake_case_object, parse_options, parse_ai_object,
  parse_model_object, parse_stream_options, option_field, unless_empty, snake_to_camel,
  is_snake_case, with_providers, text_value, check_retention,
}
use pi_recipes.RecipeModel.Lacking.{Lacks, Section, end-Lacks, put-Lacks, keep-keys-Lacks}

normalize_entries-Lacks :
    (upper : ℕ → ℕ) (done o : Fields)
    → Lacks is_blocked done
    → Ensures (Lacks is_blocked) (normalize_entries upper done o)
unfolding normalize_entries
normalize_entries-Lacks upper done end l = l
normalize_entries-Lacks upper done (field key child rest) l =
    if-keeps (Ensures (Lacks is_blocked)) (not (is_snake_case key)) _ _ (λ bad. tt)
      (λ snake.
        if-keeps (Ensures (Lacks is_blocked)) (is_blocked (snake_to_camel upper key)) _ _
          (λ blocked. tt)
          (λ free.
            normalize_entries-Lacks upper (put (snake_to_camel upper key) child done) rest
              (put-Lacks is_blocked (snake_to_camel upper key) child done free l)))

unless_empty-Lacks :
    (test : Text → Bool) (o : Fields) → Lacks test o → Section test (unless_empty o)
unless_empty-Lacks test end l = tt
unless_empty-Lacks test (field k v o) l = l

normalize_snake_case_object-Lacks :
    (upper : ℕ → ℕ) (v : Json) → Ensures (Lacks is_blocked) (normalize_snake_case_object upper v)
unfolding normalize_snake_case_object expect_object
normalize_snake_case_object-Lacks upper (obj o) =
    normalize_entries-Lacks upper end o (end-Lacks is_blocked)
normalize_snake_case_object-Lacks upper Json.null = tt
normalize_snake_case_object-Lacks upper (Json.bool b) = tt
normalize_snake_case_object-Lacks upper (Json.num n) = tt
normalize_snake_case_object-Lacks upper (Json.str s) = tt
normalize_snake_case_object-Lacks upper (Json.arr xs) = tt

parse_options-Lacks :
    (upper : ℕ → ℕ) (v : Option Json) → Ensures (Section is_blocked) (parse_options upper v)
unfolding parse_options
parse_options-Lacks upper none = tt
parse_options-Lacks upper (some v) =
    then-Ensures (Lacks is_blocked) (Section is_blocked) (normalize_snake_case_object upper v) _
      (normalize_snake_case_object-Lacks upper v) (λ o l. unless_empty-Lacks is_blocked o l)

option_field-Lacks :
    (key : Text) (v : Option Json) (o : Fields)
    → is_blocked key ≡ false
    → Lacks is_blocked o
    → Lacks is_blocked (option_field key v o)
unfolding get
option_field-Lacks key none o fine l k b = l k b
option_field-Lacks key (some v) o fine l k b =
    let same : text_eq key k ≡ true → is_blocked key ≡ is_blocked k =
      λ e. ap is_blocked ((text_eq_iff key k).0 e) in
    ground (arith, l k b, same)

-- The stream options of a legacy block are six, none of them the host's.
stream_fields-Lacks :
    (temperature max_tokens cache_retention timeout_ms max_retries max_retry_delay_ms : Option Json)
    → Lacks is_blocked (
        option_field (codes "temperature") temperature (
          option_field (codes "maxTokens") max_tokens (
            option_field (codes "cacheRetention") cache_retention (
              option_field (codes "timeoutMs") timeout_ms (
                option_field
                  (codes "maxRetries")
                  max_retries
                  (option_field (codes "maxRetryDelayMs") max_retry_delay_ms end))))))
unfolding text_eq
stream_fields-Lacks temperature max_tokens cache_retention timeout_ms max_retries
      max_retry_delay_ms =
    option_field-Lacks _ temperature _ refl (
      option_field-Lacks _ max_tokens _ refl (
        option_field-Lacks _ cache_retention _ refl (
          option_field-Lacks _ timeout_ms _ refl (
            option_field-Lacks _ max_retries _ refl
              (option_field-Lacks _ max_retry_delay_ms _ refl (end-Lacks is_blocked))))))

parse_stream_options-Lacks : (o : Fields) → Ensures (Lacks is_blocked) (parse_stream_options o)
unfolding parse_stream_options
parse_stream_options-Lacks o =
    let q = Lacks is_blocked in
    then_any-Ensures q
      (optional_string (codes "model.cache_retention") (get (codes "cache_retention") o)) _
      λ retention. then_any-Ensures q (check_retention retention) _ λ cache_retention.
        then_any-Ensures q
          (optional_number (codes "model.temperature") (get (codes "temperature") o) 0) _
          λ temperature.
            then_any-Ensures q
              (optional_integer (codes "model.max_tokens") (get (codes "max_tokens") o) 1) _
              λ max_tokens.
                then_any-Ensures q
                  (optional_integer (codes "model.timeout_ms") (get (codes "timeout_ms") o) 1) _
                  λ timeout_ms.
                    then_any-Ensures q
                      (optional_integer (codes "model.max_retries") (get (codes "max_retries") o) 0)
                      _
                      λ max_retries.
                        then_any-Ensures q
                          (optional_integer (codes "model.max_retry_delay_ms")
                            (get (codes "max_retry_delay_ms") o) 0)
                          _
                          λ max_retry_delay_ms.
                            stream_fields-Lacks temperature max_tokens (text_value cache_retention)
                              timeout_ms max_retries max_retry_delay_ms

-- The keys of the gateway's routing that the host owns.
abbrev pub is_byok : Text → Bool
is_byok key = any (text_eq key) blocked_vercel_routing_keys

abbrev OfGateway : Option ProviderConfig → Type 0
OfGateway none = Unit
OfGateway (some p) = Section is_byok p.vercel_ai_gateway

parse_routing-Lacks :
    (v : Option Json) → Ensures (Section is_byok) (parse_vercel_ai_gateway_routing v)
unfolding parse_vercel_ai_gateway_routing
parse_routing-Lacks none = tt
parse_routing-Lacks (some v) =
    then_any-Ensures (Section is_byok)
      (expect_object (codes "ai.providers.vercel_ai_gateway.routing") v) _
      λ o. elim (List-cases (keep is_byok (keys o))) [
        | inl clean ↦ rw clean (keep-keys-Lacks is_byok o clean)
        | inr (k, rest, found) ↦ rw found tt
      ]

parse_gateway-Lacks :
    (prefix : ModelPrefix) (o : Fields) → Ensures (Section is_byok) (parse_gateway prefix o)
unfolding parse_gateway parse_vercel_ai_gateway
parse_gateway-Lacks model o = tt
parse_gateway-Lacks ai o = elim (Option-cases (get (codes "vercel_ai_gateway") o)) [
  | inl missing ↦ rw missing tt
  | inr (v, found) ↦ rw found (
      then_any-Ensures (Section is_byok) (expect_object (codes "ai.providers.vercel_ai_gateway") v)
        _
        λ g.
          then_any-Ensures (Section is_byok) (assert_known_keys _ g _) _
            λ _. parse_routing-Lacks (get (codes "routing") g))
]

parse_provider_object-OfGateway :
    (prefix : ModelPrefix) (o : Fields)
    → Ensures (λ p. Section is_byok p.vercel_ai_gateway) (parse_provider_object prefix o)
unfolding parse_provider_object
parse_provider_object-OfGateway prefix o =
    let q : ProviderConfig → Type 0 = λ p. Section is_byok p.vercel_ai_gateway in
    then_any-Ensures q (assert_known_keys _ o _) _ λ _.
      then_any-Ensures q (parse_openrouter_provider prefix (get (codes "openrouter") o)) _ λ _.
        then_any-Ensures q (parse_anthropic prefix (get (codes "anthropic") o)) _ λ _.
          then-Ensures (Section is_byok) q (parse_gateway prefix o) _ (parse_gateway-Lacks prefix o)
            λ gateway l. l

parse_providers-OfGateway :
    (prefix : ModelPrefix) (v : Option Json) → Ensures OfGateway (parse_providers prefix v)
unfolding parse_providers
parse_providers-OfGateway prefix none = tt
parse_providers-OfGateway prefix (some v) = then_any-Ensures OfGateway (expect_object _ v) _ λ o.
    then-Ensures (λ p. Section is_byok p.vercel_ai_gateway) OfGateway
      (parse_provider_object prefix o) _ (parse_provider_object-OfGateway prefix o) λ config l. l

-- A configuration that sets nothing of the host's.
pub record IsForRecipe (config : RecipeAgentModelConfig) : Type 0 where
  pub options : Section is_blocked config.stream_options
  pub routing : Section is_byok config.vercel_ai_gateway

with_providers-IsForRecipe :
    (name thinking_level : Option Text) (stream : Option Fields) (p : Option ProviderConfig)
    → Section is_blocked stream
    → OfGateway p
    → IsForRecipe (with_providers name thinking_level stream p)
with_providers-IsForRecipe name thinking_level stream none s g = record {
  options = s;
  routing = tt;
}
with_providers-IsForRecipe name thinking_level stream (some p) s g = record {
  options = s;
  routing = g;
}

pub parse_ai_object-IsForRecipe :
    (upper : ℕ → ℕ) (o : Fields) → Ensures IsForRecipe (parse_ai_object upper o)
unfolding parse_ai_object
parse_ai_object-IsForRecipe upper o = then_any-Ensures IsForRecipe (assert_known_keys _ o _) _ λ _.
    then_any-Ensures IsForRecipe (optional_string (codes "ai.model") (get (codes "model") o)) _
      λ name.
        then_any-Ensures IsForRecipe
          (parse_thinking_level (codes "ai.thinking_level") (get (codes "thinking_level") o)) _
          λ level.
            then-Ensures (Section is_blocked) IsForRecipe
              (parse_options upper (get (codes "options") o)) _
              (parse_options-Lacks upper (get (codes "options") o))
              λ stream s.
                then-Ensures OfGateway IsForRecipe (parse_providers ai (get (codes "providers") o))
                  _ (parse_providers-OfGateway ai (get (codes "providers") o))
                  λ providers g. with_providers-IsForRecipe name level stream providers s g

pub parse_model_object-IsForRecipe : (o : Fields) → Ensures IsForRecipe (parse_model_object o)
unfolding parse_model_object
parse_model_object-IsForRecipe o = then_any-Ensures IsForRecipe (assert_known_keys _ o _) _ λ _.
    then_any-Ensures IsForRecipe
      (parse_thinking_level (codes "model.thinking_level") (get (codes "thinking_level") o)) _
      λ level.
        then-Ensures (Lacks is_blocked) IsForRecipe (parse_stream_options o) _
          (parse_stream_options-Lacks o)
          λ stream s.
            then_any-Ensures IsForRecipe
              (optional_string (codes "model.name") (get (codes "name") o)) _
              λ name.
                then-Ensures OfGateway IsForRecipe
                  (parse_providers model (get (codes "providers") o)) _
                  (parse_providers-OfGateway model (get (codes "providers") o))
                  λ providers g.
                    with_providers-IsForRecipe name level (unless_empty stream) providers
                      (unless_empty-Lacks is_blocked stream s) g
