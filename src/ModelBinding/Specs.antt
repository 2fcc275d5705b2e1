-- ===== src/ModelBinding/Specs.antt =====
-- References without findings are ones that parse (src/model-binding.ts, src/recipe-agent.ts).
use pi_recipes.Prelude.{
  ℕ, Text, Bool, true, false, List, [], ◌∷◌, ◌++◌, Option, none, some, All, ◌≡◌, refl, sym, ap, ◌∙◌,
  inl, inr, Bool-cases, if◌then◌else◌, ◌==◌, ==_iff, append-eq-nil, ◌⊎◌,
}
use pi_recipes.Prelude.Texts.{split_at}
use pi_recipes.Prelude.Results.{returns}
use pi_recipes.ModelBinding.{RecipeModelIdentity, parse_recipe_model_spec, identity_of}
use pi_recipes.RecipeAgent.Definition.{ParsedRecipeAgentDefinition}
use pi_recipes.RecipeAgent.Specs.{
  is_valid_split, is_valid_recipe_model_spec, model_name, spec_findings,
  validate_recipe_agent_model_specs, invalid_model_name,
}

split_step :
    (here : Bool) (d : ℕ) (s a b : Text) (below : Option (Text × Text))
    → if◌then◌else◌ {A = Option (Text × Text)} here
        (some ([], s))
        (elim below [ none ↦ none | some (x, y) ↦ some (d ∷ x, y) ])
      ≡ some (a, b)
    → ((here ≡ true) × (a ≡ []) × (b ≡ s)) ⊎ ((x : Text) × (below ≡ some (x, b)) × (a ≡ d ∷ x))
split_step true d s a b below e = inl (refl, cc, cc)
split_step false d s a b none e = cc
split_step false d s a b (some (x, y)) e = inr (x, cc, cc)

-- The spec is what it was split into.
split_at-eq : (c : ℕ) (s a b : Text) → split_at c s ≡ some (a, b) → s ≡ a ++ c ∷ b
unfolding split_at
split_at-eq c [] a b e = cc
split_at-eq c (d ∷ s) a b e = elim (split_step (d == c) d s a b (split_at c s) e) [
  | inl (here, none_before, after) ↦
      let same : d ≡ c = (==_iff d c).0 here in
      ap (λ x. x ∷ s) same ∙ ap (λ t. c ∷ t) (sym after) ∙ ap (λ x. x ++ c ∷ b) (sym none_before)
  | inr (x, found, more) ↦
      ap (λ t. d ∷ t) (split_at-eq c s x b found) ∙ ap (λ t. t ++ c ∷ b) (sym more)
]

-- A reference that the host can look up: it parses, into parts that make it up again.
abbrev pub Parses : Option Text → Type 0
Parses none = Unit
Parses (some spec) =
    (identity : RecipeModelIdentity) × (parse_recipe_model_spec spec ≡ returns identity)
    × (spec ≡ identity.provider ++ b'/' ∷ identity.model_id)

valid_split-Parses :
    (spec : Text) (parts : Option (Text × Text))
    → split_at b'/' spec ≡ parts
    → is_valid_split parts ≡ true
    → Parses (some spec)
unfolding parse_recipe_model_spec
valid_split-Parses spec none e valid = cc
valid_split-Parses spec (some ([], model_id)) e valid = cc
valid_split-Parses spec (some (p ∷ provider, [])) e valid = cc
valid_split-Parses spec (some (p ∷ provider, c ∷ model_id)) e valid =
    (_, ap (identity_of spec) e, split_at-eq b'/' spec (p ∷ provider) (c ∷ model_id) e)

spec_findings-Parses :
    (name : Text) (spec : Option Text) → spec_findings name spec ≡ [] → Parses spec
unfolding is_valid_recipe_model_spec
spec_findings-Parses name none e = tt
spec_findings-Parses name (some spec) e = elim (Bool-cases (is_valid_split (split_at b'/' spec))) [
  | inl valid ↦ valid_split-Parses spec _ refl valid
  | inr invalid ↦
      let refused : invalid_model_name name spec ∷ [] ≡ [] =
        sym (ap (λ b. if b then [] else invalid_model_name name spec ∷ []) invalid) ∙ e in
      cc
]

-- If the check of the model references finds nothing, then the model that each source names parses
-- when the host binds it, and its provider and id make up the reference again.
pub model_specs-Parses :
    (sources : List ParsedRecipeAgentDefinition)
    → validate_recipe_agent_model_specs sources ≡ []
    → All (λ source. Parses (model_name source)) sources
unfolding validate_recipe_agent_model_specs
model_specs-Parses [] e = tt
model_specs-Parses (source ∷ rest) e =
    let parts =
      append-eq-nil (spec_findings source.name (model_name source))
        (validate_recipe_agent_model_specs rest) e in
    (spec_findings-Parses source.name (model_name source) parts.0, model_specs-Parses rest parts.1)
