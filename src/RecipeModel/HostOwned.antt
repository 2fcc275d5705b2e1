-- ===== src/RecipeModel/HostOwned.antt =====
-- What belongs to the host stays the host's (src/recipe-model.ts): no configuration of a recipe,
-- however merged, sets an option of the request that the host owns, or the keys of the gateway.
use pi_recipes.Prelude.{
  ℕ, Text, codes, text_eq, true, Option, none, some, if-keeps, ◌≡◌, refl, ap, ◌∙◌,
}
use pi_recipes.Prelude.Results.{returns, Ensures, Ensures-eq, then-Ensures, then_any-Ensures}
use pi_recipes.Json.{Json, obj, Fields, end, field, get, put, spread, get-put}
use pi_recipes.RecipeModel.Config.{RecipeAgentModelConfig}
use pi_recipes.RecipeModel.Values.{expect_object}
use pi_recipes.RecipeModel.{
  is_blocked, parse_ai_object, parse_model_object, parse_recipe_agent_ai_config,
  parse_recipe_agent_model_config,
}
use pi_recipes.RecipeModel.Policy.{
  merge_configs, unless_named, merge_stream_options, or_end, apply_recipe_agent_payload_policy,
  object_or_empty, route_payload, with_vercel_ai_gateway_routing, with_anthropic_context_management,
  Model, context_management_of, manage_context,
}
use pi_recipes.RecipeModel.Lacking.{Lacks, Section, get-spread-Lacks, merge_section-Lacks}
use pi_recipes.RecipeModel.Parsed.{
  IsForRecipe, is_byok, parse_ai_object-IsForRecipe, parse_model_object-IsForRecipe,
}

unless_named-IsForRecipe :
    (name : Option Text) (overlay merged : RecipeAgentModelConfig)
    → IsForRecipe overlay
    → IsForRecipe merged
    → IsForRecipe (unless_named name overlay merged)
unless_named-IsForRecipe (some _) overlay merged vo vm = vo
unless_named-IsForRecipe none overlay merged vo vm = vm

merge_configs-IsForRecipe :
    (base overlay : RecipeAgentModelConfig)
    → IsForRecipe base
    → IsForRecipe overlay
    → IsForRecipe (merge_configs base overlay)
unfolding merge_configs
merge_configs-IsForRecipe base overlay vb vo =
    unless_named-IsForRecipe overlay.name overlay _ vo record {
      options = merge_section-Lacks is_blocked _ _ vb.options vo.options;
      routing = merge_section-Lacks is_byok _ _ vb.routing vo.routing;
    }

-- The configurations a recipe can come to: parsed from a block, or merged from such.
pub data FromRecipe (upper : ℕ → ℕ) : RecipeAgentModelConfig → Type 0 where
  from_ai :
      (v : Json) (config : RecipeAgentModelConfig)
      → parse_recipe_agent_ai_config upper (some v) ≡ returns (some config)
      → FromRecipe upper config
  from_model :
      (v : Json) (config : RecipeAgentModelConfig)
      → parse_recipe_agent_model_config (some v) ≡ returns (some config)
      → FromRecipe upper config
  merged :
      (base overlay : RecipeAgentModelConfig)
      → FromRecipe upper base
      → FromRecipe upper overlay
      → FromRecipe upper (merge_configs base overlay)

abbrev OptionIsForRecipe : Option RecipeAgentModelConfig → Type 0
OptionIsForRecipe none = Unit
OptionIsForRecipe (some config) = IsForRecipe config

parse_ai-IsForRecipe :
    (upper : ℕ → ℕ) (v : Json)
    → Ensures OptionIsForRecipe (parse_recipe_agent_ai_config upper (some v))
unfolding parse_recipe_agent_ai_config
parse_ai-IsForRecipe upper v =
    then_any-Ensures OptionIsForRecipe (expect_object (codes "ai") v) _ λ o.
      then-Ensures IsForRecipe OptionIsForRecipe (parse_ai_object upper o) _
        (parse_ai_object-IsForRecipe upper o) λ config is. is

parse_model-IsForRecipe :
    (v : Json) → Ensures OptionIsForRecipe (parse_recipe_agent_model_config (some v))
unfolding parse_recipe_agent_model_config
parse_model-IsForRecipe v =
    then_any-Ensures OptionIsForRecipe (expect_object (codes "model") v) _ λ o.
      then-Ensures IsForRecipe OptionIsForRecipe (parse_model_object o) _
        (parse_model_object-IsForRecipe o) λ config is. is

FromRecipe-IsForRecipe :
    (upper : ℕ → ℕ) (config : RecipeAgentModelConfig) → FromRecipe upper config → IsForRecipe config
FromRecipe-IsForRecipe upper _ (from_ai v config e) =
    Ensures-eq OptionIsForRecipe _ (some config) (parse_ai-IsForRecipe upper v) e
FromRecipe-IsForRecipe upper _ (from_model v config e) =
    Ensures-eq OptionIsForRecipe _ (some config) (parse_model-IsForRecipe v) e
FromRecipe-IsForRecipe upper _ (merged base overlay b o) =
    merge_configs-IsForRecipe base overlay (FromRecipe-IsForRecipe upper base b)
      (FromRecipe-IsForRecipe upper overlay o)

merge_options-kept :
    (current : Option Fields) (options : Option Fields) (key : Text)
    → Section is_blocked options
    → is_blocked key ≡ true
    → get key (or_end (merge_stream_options current options)) ≡ get key (or_end current)
unfolding merge_stream_options
merge_options-kept current none key s b = refl
merge_options-kept current (some end) key s b = refl
merge_options-kept current (some (field k v o)) key s b =
    get-spread-Lacks is_blocked (or_end current) (field k v o) s key b

-- Whatever configuration a recipe's `ai:` and `model:` blocks come to, merged any number of times,
-- the options it gives to a request leave every option that the host owns (the API key, headers,
-- the endpoint, the session…) as the host set it, or unset.
pub options_kept :
    (upper : ℕ → ℕ) (config : RecipeAgentModelConfig) (current : Option Fields) (key : Text)
    → FromRecipe upper config
    → is_blocked key ≡ true
    → get key (or_end (merge_stream_options current config.stream_options))
      ≡ get key (or_end current)
options_kept upper config current key from b =
    merge_options-kept current config.stream_options key
      (FromRecipe-IsForRecipe upper config from).options b

-- The object that a payload holds for the gateway.
abbrev pub gateway_of : Json → Fields
gateway_of (obj o) =
    object_or_empty (get (codes "gateway") (object_or_empty (get (codes "providerOptions") o)))
gateway_of _ = end

gateway_of-put :
    (routed provider payload : Fields)
    → gateway_of (
        obj (
          put
            (codes "providerOptions")
            (obj (put (codes "gateway") (obj routed) provider))
            payload))
      ≡ routed
unfolding text_eq
gateway_of-put routed provider payload =
    rw
      (
        get-put (codes "providerOptions") (codes "providerOptions")
            (obj (put (codes "gateway") (obj routed) provider)) payload,
        get-put (codes "gateway") (codes "gateway") (obj routed) provider,
      )
      refl

gateway_of-context_management :
    (value : Json) (o : Fields)
    → gateway_of (obj (put (codes "context_management") value o)) ≡ gateway_of (obj o)
unfolding text_eq
gateway_of-context_management value o =
    rw (get-put (codes "context_management") (codes "providerOptions") value o) refl

gateway_of-manage_context :
    (value : Option Json) (m : Model) (o : Fields)
    → gateway_of (manage_context value m o) ≡ gateway_of (obj o)
gateway_of-manage_context none m o = refl
gateway_of-manage_context (some value) m o =
    if-keeps (λ sent. gateway_of sent ≡ gateway_of (obj o)) (text_eq m.api _) _ _
      (λ speaks. gateway_of-context_management value o) (λ other. refl)

gateway_of-with_anthropic :
    (payload : Json) (m : Model) (config : RecipeAgentModelConfig)
    → gateway_of (with_anthropic_context_management payload m config) ≡ gateway_of payload
unfolding with_anthropic_context_management
gateway_of-with_anthropic (obj o) m config =
    gateway_of-manage_context (context_management_of config) m o
gateway_of-with_anthropic Json.null m config = refl
gateway_of-with_anthropic (Json.bool b) m config = refl
gateway_of-with_anthropic (Json.num n) m config = refl
gateway_of-with_anthropic (Json.str s) m config = refl
gateway_of-with_anthropic (Json.arr xs) m config = refl

module _ (m : Model) (config : RecipeAgentModelConfig) (key : Text) (b : is_byok key ≡ true) where
  gateway_of-route_payload :
      (routing payload : Fields)
      → Lacks is_byok routing
      → get key (gateway_of (obj (route_payload routing payload)))
        ≡ get key (gateway_of (obj payload))
  unfolding route_payload
  gateway_of-route_payload routing payload free =
      let provider = object_or_empty (get (codes "providerOptions") payload) in
      ap (get key) (
        gateway_of-put (spread (object_or_empty (get (codes "gateway") provider)) routing) provider
          payload)
      ∙ get-spread-Lacks is_byok (object_or_empty (get (codes "gateway") provider)) routing free key
          b

  routed-kept :
      (routing : Option Fields) (payload : Fields)
      → config.vercel_ai_gateway ≡ routing
      → Section is_byok routing
      → get key (gateway_of (with_vercel_ai_gateway_routing (obj payload) m config))
        ≡ get key (gateway_of (obj payload))
  unfolding with_vercel_ai_gateway_routing
  routed-kept none payload e free = rw e refl
  routed-kept (some routing) payload e free = rw e (
      if-keeps (λ sent. get key (gateway_of sent) ≡ get key (gateway_of (obj payload)))
        (text_eq m.provider _) _ _ (λ routes. gateway_of-route_payload routing payload free)
        (λ other. refl))

  gateway_of-with_vercel :
      (payload : Json)
      → Section is_byok config.vercel_ai_gateway
      → get key (gateway_of (with_vercel_ai_gateway_routing payload m config))
        ≡ get key (gateway_of payload)
  unfolding with_vercel_ai_gateway_routing
  gateway_of-with_vercel (obj o) free = routed-kept config.vercel_ai_gateway o refl free
  gateway_of-with_vercel Json.null free = refl
  gateway_of-with_vercel (Json.bool x) free = refl
  gateway_of-with_vercel (Json.num n) free = refl
  gateway_of-with_vercel (Json.str s) free = refl
  gateway_of-with_vercel (Json.arr xs) free = refl

-- The keys that pay for the gateway stay as the payload had them: whatever configuration a recipe's
-- blocks come to, the payload that is sent has the gateway keys (`byok`) that the host's payload had,
-- and no other.
pub byok_kept :
    (upper : ℕ → ℕ) (config : RecipeAgentModelConfig) (payload : Json) (m : Model) (key : Text)
    → FromRecipe upper config
    → is_byok key ≡ true
    → get key (gateway_of (apply_recipe_agent_payload_policy payload m (some config)))
      ≡ get key (gateway_of payload)
unfolding apply_recipe_agent_payload_policy
byok_kept upper config payload m key from b =
    let free = (FromRecipe-IsForRecipe upper config from).routing in
    gateway_of-with_vercel m config key b (with_anthropic_context_management payload m config) free
    ∙ ap (get key) (gateway_of-with_anthropic payload m config)
