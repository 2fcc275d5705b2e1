-- ===== src/RecipeAgent/HostOwned.antt =====
-- From the files to a request: what belongs to the host stays the host's for every agent that is
-- loaded (src/recipe-agent.ts, src/recipe-model.ts).
use pi_recipes.Prelude.{
  ℕ, Text, codes, Bool, true, false, List, [], ◌∷◌, Option, none, some, All, ◌≡◌, refl, subst, inl,
  inr,
}
use pi_recipes.Prelude.Maps.{lookup, insert, lookup-insert_cases}
use pi_recipes.Prelude.Results.{Result, returns, throws, Ensures, then-Ensures, then_any-Ensures}
use pi_recipes.Json.{Json, Fields, get}
use pi_recipes.RecipeModel.{
  is_blocked, parse_recipe_agent_ai_config, parse_recipe_agent_model_config,
}
use pi_recipes.RecipeModel.Config.{RecipeAgentModelConfig, ModelError}
use pi_recipes.RecipeModel.Policy.{merge_recipe_agent_model_config, merge_stream_options, or_end}
use pi_recipes.RecipeModel.HostOwned.{FromRecipe, from_ai, from_model, merged, options_kept}
use pi_recipes.RecipeSession.{parse_recipe_agent_session_config}
use pi_recipes.RecipePackage.Selection.{has_own}
use pi_recipes.RecipeAgent.{
  agent_model_of, add_source, parse_agent_model, read_recipe_agent_source,
  read_recipe_agent_sources, or_fail, check_agent_keys, check_agent_fields,
}
use pi_recipes.RecipeAgent.Definition.{
  RecipeAgentDefinition, ParsedRecipeAgentDefinition, AgentFileError, invalid_model,
  invalid_session,
}
use pi_recipes.RecipeAgent.Resolution.{
  RawDefinitions, raw_definitions_of, definitions_from_sources, resolve_root, resolve_over,
}
use pi_recipes.RecipeAgent.Chains.{Resolves, root, over}
use pi_recipes.RecipeAgent.Loading.{definitions_from_sources-Chain}

module _ (upper : ℕ → ℕ) where
  -- A configuration that comes from a recipe, if there is one.
  abbrev IsRecipes : Option RecipeAgentModelConfig → Type 0
  IsRecipes none = Unit
  IsRecipes (some config) = FromRecipe upper config

  ai-IsRecipes :
      (v : Json) (r : Result ModelError (Option RecipeAgentModelConfig))
      → parse_recipe_agent_ai_config upper (some v) ≡ r
      → Ensures IsRecipes (or_fail invalid_model r)
  ai-IsRecipes v (returns none) e = tt
  ai-IsRecipes v (returns (some config)) e = from_ai v config e
  ai-IsRecipes v (throws x) e = tt

  model-IsRecipes :
      (v : Option Json) (r : Result ModelError (Option RecipeAgentModelConfig))
      → parse_recipe_agent_model_config v ≡ r
      → Ensures IsRecipes (or_fail invalid_model r)
  unfolding parse_recipe_agent_model_config
  model-IsRecipes v (returns none) e = tt
  model-IsRecipes v (throws x) e = tt
  model-IsRecipes (some v) (returns (some config)) e = from_model v config e
  model-IsRecipes none (returns (some config)) e = cc

  merge-IsRecipes :
      (base overlay : Option RecipeAgentModelConfig)
      → IsRecipes base
      → IsRecipes overlay
      → IsRecipes (merge_recipe_agent_model_config base overlay)
  unfolding merge_recipe_agent_model_config
  merge-IsRecipes none overlay b o = o
  merge-IsRecipes (some base) none b o = b
  merge-IsRecipes (some base) (some overlay) b o = merged base overlay b o

  agent_model_of-IsRecipes :
      (has_model : Bool) (model ai : Option Json)
      → Ensures IsRecipes (agent_model_of upper has_model model ai)
  agent_model_of-IsRecipes has_model model none = model-IsRecipes model _ refl
  agent_model_of-IsRecipes true model (some ai) = tt
  agent_model_of-IsRecipes false model (some ai) = ai-IsRecipes ai _ refl

  parse_agent_model-IsRecipes :
      (data_object : Fields) → Ensures IsRecipes (parse_agent_model upper data_object)
  unfolding parse_agent_model
  parse_agent_model-IsRecipes data_object =
      agent_model_of-IsRecipes (has_own (codes "model") data_object)
        (get (codes "model") data_object) (get (codes "ai") data_object)

  read_source-IsRecipes :
      (lower : Text → Text) (data_object : Fields)
      → Ensures
          (λ source. IsRecipes source.model_config)
          (read_recipe_agent_source upper lower data_object)
  unfolding read_recipe_agent_source
  read_source-IsRecipes lower data_object =
      let q : ParsedRecipeAgentDefinition → Type 0 = λ source. IsRecipes source.model_config in
      then_any-Ensures q (check_agent_keys data_object) _ λ _.
        then_any-Ensures q (check_agent_fields data_object) _ λ _.
          then-Ensures IsRecipes q (parse_agent_model upper data_object) _
            (parse_agent_model-IsRecipes data_object)
            λ config is.
              then_any-Ensures q
                (or_fail invalid_session
                  (parse_recipe_agent_session_config (get (codes "session") data_object)))
                _ λ session. is

  add_source-IsRecipes :
      (source : Result AgentFileError ParsedRecipeAgentDefinition)
      (sources : List ParsedRecipeAgentDefinition)
      → Ensures (λ source. IsRecipes source.model_config) source
      → All (λ source. IsRecipes source.model_config) sources
      → All (λ source. IsRecipes source.model_config) (add_source source sources)
  add_source-IsRecipes (returns source) sources s more = (s, more)
  add_source-IsRecipes (throws error) sources s more = more

  read_sources-IsRecipes :
      (lower : Text → Text) (files : List Fields)
      → All (λ source. IsRecipes source.model_config) (read_recipe_agent_sources upper lower files)
  unfolding read_recipe_agent_sources
  read_sources-IsRecipes lower [] = tt
  read_sources-IsRecipes lower (file ∷ rest) =
      add_source-IsRecipes (read_recipe_agent_source upper lower file) _
        (read_source-IsRecipes lower file) (read_sources-IsRecipes lower rest)

  -- Every raw definition's configuration comes from a recipe.
  abbrev AreRecipes : RawDefinitions → Type 0
  AreRecipes raws =
      (name : Text) (raw : ParsedRecipeAgentDefinition)
      → lookup name raws ≡ some raw
      → IsRecipes raw.model_config

  raw_definitions-AreRecipes :
      (sources : List ParsedRecipeAgentDefinition) (raws : RawDefinitions)
      → All (λ source. IsRecipes source.model_config) sources
      → AreRecipes raws
      → AreRecipes (raw_definitions_of sources raws)
  unfolding raw_definitions_of
  raw_definitions-AreRecipes [] raws s are = are
  raw_definitions-AreRecipes (source ∷ rest) raws (s, more) are =
      raw_definitions-AreRecipes rest (insert source.name source raws) more (λ name raw e.
        elim (lookup-insert_cases source.name name source raw raws e) [
          | inl (_, same) ↦
              subst (λ (r : ParsedRecipeAgentDefinition). IsRecipes r.model_config) same s
          | inr (_, found) ↦ are name raw found
        ])

  Resolves-IsRecipes :
      (raws : RawDefinitions) (name : Text) (n : ℕ) (d : RecipeAgentDefinition)
      → AreRecipes raws
      → Resolves raws name n d
      → IsRecipes d.model_config
  unfolding resolve_root resolve_over
  Resolves-IsRecipes raws name _ _ are (root _ raw h p) =
      merge-IsRecipes none raw.model_config tt (are name raw h)
  Resolves-IsRecipes raws name _ _ are (over _ base raw n d h p r) =
      merge-IsRecipes d.model_config raw.model_config (Resolves-IsRecipes raws base n d are r)
        (are name raw h)

  abbrev pub options_of : Option RecipeAgentModelConfig → Option Fields
  options_of none = none
  options_of (some config) = config.stream_options

  kept :
      (config : Option RecipeAgentModelConfig) (current : Option Fields) (key : Text)
      → IsRecipes config
      → is_blocked key ≡ true
      → get key (or_end (merge_stream_options current (options_of config)))
        ≡ get key (or_end current)
  unfolding merge_stream_options
  kept none current key is b = refl
  kept (some config) current key is b = options_kept upper config current key is b

  []-AreRecipes : AreRecipes []
  unfolding lookup
  []-AreRecipes name raw e = cc

-- Whatever the files of a recipe's agents hold, the options that a loaded agent gives to a request
-- leave every option that the host owns (the API key, headers, the session…) as the host set it, or
-- unset: reading refuses them, and inheritance along `from` brings in none.
pub loaded_options_kept :
    (upper : ℕ → ℕ) (lower : Text → Text) (files : List Fields) (name : Text)
    (d : RecipeAgentDefinition) (current : Option Fields) (key : Text)
    → lookup name (definitions_from_sources (read_recipe_agent_sources upper lower files)) ≡ some d
    → is_blocked key ≡ true
    → get key (or_end (merge_stream_options current (options_of upper d.model_config)))
      ≡ get key (or_end current)
loaded_options_kept upper lower files name d current key loaded b =
    let sources = read_recipe_agent_sources upper lower files in
    let (n, chain) = definitions_from_sources-Chain sources name d loaded in
    let are =
      raw_definitions-AreRecipes upper sources [] (read_sources-IsRecipes upper lower files)
        ([]-AreRecipes upper) in
    kept upper d.model_config current key
      (Resolves-IsRecipes upper (raw_definitions_of sources []) name n d are chain) b
