-- ===== src/ModelBinding.antt =====
-- The references to models that recipes hold (src/model-binding.ts). A model of the host is its
-- provider and its id.
pub mod Specs
mod Tests
use pi_recipes.Prelude.{
  Text, codes, text_eq, Bool, true, false, not, ◌||◌, List, [], ◌∷◌, Option, none, some,
  if◌then◌else◌,
}
use pi_recipes.Prelude.Texts.{split_at, truthy}
use pi_recipes.Prelude.Results.{Result, returns, throws, ◌>>=◌}

pub record RecipeModelIdentity : Type 0 where
  pub provider : Text
  pub model_id : Text
  pub lookup_provider : Text

pub data BindingError : Type 0 where
  invalid_model transport_mismatch model_missing : Text → BindingError

abbrev lookup_of : Text → Text
lookup_of provider = if text_eq provider (codes "gemini") then codes "google" else provider

-- The parts of a spec before and after its first slash, neither of them empty.
abbrev pub identity_of : Text → Option (Text × Text) → Result BindingError RecipeModelIdentity
identity_of spec none = throws (invalid_model spec)
identity_of spec (some ([], model_id)) = throws (invalid_model spec)
identity_of spec (some (p ∷ provider, [])) = throws (invalid_model spec)
identity_of spec (some (p ∷ provider, c ∷ model_id)) = returns (record {
  provider = p ∷ provider;
  model_id = c ∷ model_id;
  lookup_provider = lookup_of (p ∷ provider);
})

unfoldable pub parse_recipe_model_spec : Text → Result BindingError RecipeModelIdentity
parse_recipe_model_spec spec = identity_of spec (split_at b'/' spec)

abbrev check_transport :
    Text → Option (Text × Text) → RecipeModelIdentity → Result BindingError RecipeModelIdentity
check_transport spec none identity = returns identity
check_transport spec (some (provider, id)) identity =
    if not (text_eq provider identity.lookup_provider) || not (text_eq id identity.model_id)
    then throws (transport_mismatch spec)
    else returns identity

unfoldable pub assert_recipe_model_transport :
    Text → Option (Text × Text) → Result BindingError RecipeModelIdentity
assert_recipe_model_transport spec model = do
  identity ← parse_recipe_model_spec spec
  check_transport spec model identity

-- `find` stands for the registry's lookup, and then the built-in models'.
pub resolve_recipe_model :
    (Text → Text → Option (Text × Text)) → Text → Result BindingError (Text × Text)
resolve_recipe_model find spec = do
  identity ← parse_recipe_model_spec spec
  elim (find identity.lookup_provider identity.model_id) [
    | none ↦ throws (model_missing spec)
    | some model ↦ returns model
  ]
