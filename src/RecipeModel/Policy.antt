-- ===== src/RecipeModel/Policy.antt =====
-- What a configuration does to a base configuration, a model, a request and a payload
-- (src/recipe-model.ts).
use pi_recipes.Prelude.{
  Text, codes, text_eq, Bool, true, false, List, [], ◌∷◌, ◌++◌, Option, none, some, keep, map,
  if◌then◌else◌, ◌==◌,
}
use pi_recipes.Prelude.Texts.{trim, truthy, join, distinct_texts}
use pi_recipes.Prelude.Maps.{lookup, insert}
use pi_recipes.Json.{Json, obj, Fields, end, field, get, put, spread}
use pi_recipes.RecipeModel.Config.{
  RecipeAgentModelConfig, RecipeAgentModelAnthropicOptions, has_keys,
}

abbrev pub or_end : Option Fields → Fields
or_end none = end
or_end (some o) = o

abbrev pub or_base {ℓ} : {A : Type ℓ} → Option A → Option A → Option A
or_base none base = base
or_base (some a) base = some a

-- A section of the merged configuration: by key, or what the two spreads before leave.
unfoldable pub merge_section : Option Fields → Option Fields → Option Fields
merge_section base overlay =
    let merged = spread (or_end base) (or_end overlay) in
    if has_keys merged then some merged else or_base overlay base

abbrev no_anthropic : RecipeAgentModelAnthropicOptions
no_anthropic = record { betas = none; context_management = none }

abbrev or_no_anthropic : Option RecipeAgentModelAnthropicOptions → RecipeAgentModelAnthropicOptions
or_no_anthropic none = no_anthropic
or_no_anthropic (some a) = a

abbrev has_anthropic_keys : RecipeAgentModelAnthropicOptions → Bool
has_anthropic_keys a = elim a.betas [
  | some _ ↦ true
  | none ↦ elim a.context_management [ some _ ↦ true | none ↦ false ]
]

unfoldable pub merge_anthropic :
    Option RecipeAgentModelAnthropicOptions
    → Option RecipeAgentModelAnthropicOptions
    → Option RecipeAgentModelAnthropicOptions
merge_anthropic base overlay =
    let b = or_no_anthropic base in
    let o = or_no_anthropic overlay in
    let merged : RecipeAgentModelAnthropicOptions = record {
      betas = or_base o.betas b.betas;
      context_management = or_base o.context_management b.context_management;
    } in
    if has_anthropic_keys merged then some merged else or_base overlay base

abbrev pub unless_named :
    Option Text → RecipeAgentModelConfig → RecipeAgentModelConfig → RecipeAgentModelConfig
unless_named (some _) overlay merged = overlay
unless_named none overlay merged = merged

abbrev pub merge_fields : RecipeAgentModelConfig → RecipeAgentModelConfig → RecipeAgentModelConfig
merge_fields base overlay = record {
  name = base.name;
  thinking_level = or_base overlay.thinking_level base.thinking_level;
  stream_options = merge_section base.stream_options overlay.stream_options;
  openrouter = merge_section base.openrouter overlay.openrouter;
  anthropic = merge_anthropic base.anthropic overlay.anthropic;
  vercel_ai_gateway = merge_section base.vercel_ai_gateway overlay.vercel_ai_gateway;
}

-- The two configurations by key; an overlay with a model name of its own is not merged.
unfoldable pub merge_configs :
    RecipeAgentModelConfig → RecipeAgentModelConfig → RecipeAgentModelConfig
merge_configs base overlay = unless_named overlay.name overlay (merge_fields base overlay)

unfoldable pub merge_recipe_agent_model_config :
    Option RecipeAgentModelConfig → Option RecipeAgentModelConfig → Option RecipeAgentModelConfig
merge_recipe_agent_model_config none overlay = overlay
merge_recipe_agent_model_config (some base) none = some base
merge_recipe_agent_model_config (some base) (some overlay) = some (merge_configs base overlay)

-- What the program reads and sets of a model of the host.
pub record Model : Type 0 where
  pub provider : Text
  pub api : Text
  pub headers : Option (List (Text × Text))
  pub compat : Option Fields

abbrev add_character : Text → List Text → List Text
add_character c [] = c ∷ []
add_character c (part ∷ parts) = (c ++ part) ∷ parts

-- value.split(",")
unfoldable pub split_commas : Text → List Text
split_commas [] = [] ∷ []
split_commas (c ∷ s) =
    let rest = split_commas s in if c == b',' then [] ∷ rest else add_character (c ∷ []) rest

abbrev pub beta_header : Text
beta_header = codes "anthropic-beta"

unfoldable pub existing_betas : Option (List (Text × Text)) → List Text
existing_betas none = []
existing_betas (some headers) = elim (lookup beta_header headers) [
  | none ↦ []
  | some value ↦ keep truthy (map trim (split_commas value))
]

abbrev or_no_headers : Option (List (Text × Text)) → List (Text × Text)
or_no_headers none = []
or_no_headers (some headers) = headers

abbrev betas_of : Option RecipeAgentModelAnthropicOptions → List Text
betas_of none = []
betas_of (some a) = elim a.betas [ none ↦ [] | some betas ↦ betas ]

unfoldable pub with_betas : List Text → Model → Model
with_betas [] m = m
with_betas (beta ∷ more) m =
    let betas = distinct_texts [] (existing_betas m.headers ++ (beta ∷ more)) in
    record m {
      headers = some (insert beta_header (join (codes ",") betas) (or_no_headers m.headers));
    }

unfoldable pub with_routing : Option Fields → Model → Model
with_routing none m = m
with_routing (some routing) m = record m {
  compat = some (put (codes "openRouterRouting") (obj routing) (or_end m.compat));
}

-- Provider routing and headers on a model.
unfoldable pub apply_recipe_agent_model_config_to_model :
    Model → Option RecipeAgentModelConfig → Model
apply_recipe_agent_model_config_to_model m none = m
apply_recipe_agent_model_config_to_model m (some config) =
    with_betas (betas_of config.anthropic) (with_routing config.openrouter m)

unfoldable pub merge_stream_options : Option Fields → Option Fields → Option Fields
merge_stream_options current none = current
merge_stream_options current (some end) = current
merge_stream_options current (some (field k v o)) = some (spread (or_end current) (field k v o))

unfoldable pub context_management_of : RecipeAgentModelConfig → Option Json
context_management_of config = elim config.anthropic [ none ↦ none | some a ↦ a.context_management ]

abbrev pub manage_context : Option Json → Model → Fields → Json
manage_context none m payload = obj payload
manage_context (some value) m payload =
    if text_eq m.api (codes "anthropic-messages")
    then obj (put (codes "context_management") value payload)
    else obj payload

unfoldable pub with_anthropic_context_management : Json → Model → RecipeAgentModelConfig → Json
with_anthropic_context_management (obj payload) m config =
    manage_context (context_management_of config) m payload
with_anthropic_context_management payload m config = payload

abbrev pub object_or_empty : Option Json → Fields
object_or_empty (some (obj o)) = o
object_or_empty _ = end

unfoldable pub route_payload : Fields → Fields → Fields
route_payload routing payload =
    let provider_options = object_or_empty (get (codes "providerOptions") payload) in
    let gateway = object_or_empty (get (codes "gateway") provider_options) in
    put (codes "providerOptions")
      (obj (put (codes "gateway") (obj (spread gateway routing)) provider_options)) payload

unfoldable pub with_vercel_ai_gateway_routing : Json → Model → RecipeAgentModelConfig → Json
with_vercel_ai_gateway_routing (obj payload) m config = elim config.vercel_ai_gateway [
  | none ↦ obj payload
  | some routing ↦
      if text_eq m.provider (codes "vercel-ai-gateway")
      then obj (route_payload routing payload)
      else obj payload
]
with_vercel_ai_gateway_routing payload m config = payload

-- The payload that is sent.
unfoldable pub apply_recipe_agent_payload_policy :
    Json → Model → Option RecipeAgentModelConfig → Json
apply_recipe_agent_payload_policy payload m none = payload
apply_recipe_agent_payload_policy payload m (some config) =
    with_vercel_ai_gateway_routing (with_anthropic_context_management payload m config) m config
