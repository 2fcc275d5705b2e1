-- ===== src/RecipeAgent/Agreement.antt =====
-- What the findings read of the raw definitions agrees with what is resolved (src/recipe-agent.ts).
use pi_recipes.Prelude.{
  ℕ, zero, suc, ◌≤◌, Text, Bool, true, false, List, [], ◌∷◌, ◌++◌, Option, none, some, ◌≡◌, ◌↔◌,
  refl, ap, ◌∙◌, arith,
}
use pi_recipes.Prelude.Texts.{has}
use pi_recipes.Prelude.Maps.{lookup}
use pi_recipes.RecipeAgent.Definition.{RecipeAgentDefinition, ParsedRecipeAgentDefinition}
use pi_recipes.RecipeAgent.Resolution.{
  RawDefinitions, parent, resolve_root, resolve_over, max_inheritance_depth,
}
use pi_recipes.RecipeAgent.Chains.{Resolves, root, over}
use pi_recipes.RecipeAgent.Depth.{Above, push-Above, off_stack}
use pi_recipes.RecipeAgent.Validation.{
  InheritanceFinding, find_base, inheritance_of, inheritance_of_raw, inheritance_finding,
  walk_chain, walk_raw, walk_base, mcp_of_raw,
}

module _ (raws : RawDefinitions) where
  pub []-Above : (n : ℕ) → Above raws [] n
  unfolding has
  []-Above n s m d on r = cc

  -- A chain of bases that ends within the bound.
  abbrev pub Ends : ℕ → Text → Type 0
  Ends fuel name = (n : ℕ) × (d : RecipeAgentDefinition) × (n ≤ fuel) × Resolves raws name n d

  find_base-none :
      (name base : Text) (stack : List Text) (on : Bool)
      (raw_base : Option ParsedRecipeAgentDefinition) (below : Option InheritanceFinding)
      → find_base name stack base on raw_base below ≡ none
      → below ≡ none
  unfolding find_base
  find_base-none name base stack true raw_base below e = cc
  find_base-none name base stack false none below e = cc
  find_base-none name base stack false (some raw) below e = e

  inheritance_of-none :
      (fuel : ℕ) (name : Text) (stack : List Text) (raw : ParsedRecipeAgentDefinition)
      (base : Option Text) (below : Text → Option InheritanceFinding)
      → lookup name raws ≡ some raw
      → parent raw ≡ base
      → ((b : Text) → below b ≡ none → Ends fuel b)
      → inheritance_of raws name stack base below ≡ none
      → Ends (suc fuel) name
  unfolding inheritance_of
  inheritance_of-none fuel name stack raw none below h p ends e =
      (1, resolve_root raw, omega arith, root name raw h p)
  inheritance_of-none fuel name stack raw (some base) below h p ends e =
      let (n, d, le, r) = ends base (find_base-none name base stack _ _ (below base) e) in
      (suc n, resolve_over d raw, omega (arith, le), over name base raw n d h p r)

  inheritance_of_raw-none :
      (fuel : ℕ) (name : Text) (stack : List Text) (raw : Option ParsedRecipeAgentDefinition)
      (below : Text → Option InheritanceFinding)
      → lookup name raws ≡ raw
      → ((b : Text) → below b ≡ none → Ends fuel b)
      → inheritance_of_raw raws name stack raw below ≡ none
      → Ends (suc fuel) name
  unfolding inheritance_of_raw
  inheritance_of_raw-none fuel name stack none below h ends e = cc
  inheritance_of_raw-none fuel name stack (some raw) below h ends e =
      inheritance_of-none fuel name stack raw (parent raw) below h refl ends e

  pub inheritance_finding-none :
      (fuel : ℕ) (stack : List Text) (name : Text)
      → inheritance_finding raws fuel stack name ≡ none
      → Ends fuel name
  unfolding inheritance_finding
  inheritance_finding-none zero stack name e = cc
  inheritance_finding-none (suc fuel) stack name e =
      inheritance_of_raw-none fuel name stack (lookup name raws) _ refl
        (λ b. inheritance_finding-none fuel (stack ++ name ∷ []) b) e

  -- The same way back.
  inheritance_raw-eq :
      (fuel : ℕ) (name : Text) (stack : List Text) (raw : ParsedRecipeAgentDefinition)
      (base : Option Text)
      → lookup name raws ≡ some raw
      → parent raw ≡ base
      → inheritance_finding raws (suc fuel) stack name
        ≡ inheritance_of raws name stack base
            (λ b. inheritance_finding raws fuel (stack ++ name ∷ []) b)
  unfolding inheritance_finding inheritance_of_raw
  inheritance_raw-eq fuel name stack raw base h p =
      let below = inheritance_finding raws fuel (stack ++ name ∷ []) in
      ap (λ r. inheritance_of_raw raws name stack r below) h
      ∙ ap (λ b. inheritance_of raws name stack b below) p

  inheritance_of-below :
      (name base : Text) (stack : List Text) (raw : ParsedRecipeAgentDefinition)
      (below : Text → Option InheritanceFinding)
      → has base stack ≡ false
      → lookup base raws ≡ some raw
      → inheritance_of raws name stack (some base) below ≡ below base
  unfolding inheritance_of find_base
  inheritance_of-below name base stack raw below free h =
      ap (λ b. find_base name stack base b (lookup base raws) (below base)) free
      ∙ ap (λ r. find_base name stack base false r (below base)) h

  Resolves-raw :
      (name : Text) (n : ℕ) (d : RecipeAgentDefinition)
      → Resolves raws name n d
      → (raw : ParsedRecipeAgentDefinition) × (lookup name raws ≡ some raw)
  Resolves-raw name _ _ (root _ raw h p) = (raw, h)
  Resolves-raw name _ _ (over _ base raw m e h p r) = (raw, h)

  pub Resolves-no_finding :
      (n fuel : ℕ) (stack : List Text) (name : Text) (d : RecipeAgentDefinition)
      → Resolves raws name n d
      → n ≤ fuel
      → Above raws stack n
      → inheritance_finding raws fuel stack name ≡ none
  unfolding inheritance_of find_base
  Resolves-no_finding n zero stack name d (root _ raw h p) le above = absurd (omega (arith, le))
  Resolves-no_finding n zero stack name d (over _ base raw m e h p r) le above =
      absurd (omega (arith, le))
  Resolves-no_finding n (suc fuel) stack name d (root _ raw h p) le above =
      inheritance_raw-eq fuel name stack raw none h p
  Resolves-no_finding n (suc fuel) stack name _ (over _ base raw m e h p r) le above =
      let chain = over name base raw m e h p r in
      let (raw_base, hb) = Resolves-raw base m e r in
      let free =
        off_stack raws stack base m e
          (λ s k x on q. let far = above s k x on q in omega (arith, far)) r in
      inheritance_raw-eq fuel name stack raw (some base) h p
      ∙ inheritance_of-below name base stack raw_base
          (inheritance_finding raws fuel (stack ++ name ∷ [])) free hb
      ∙ Resolves-no_finding m fuel (stack ++ name ∷ []) base e r (omega (arith, le))
          (push-Above raws stack name m _ above chain)

  -- What a walk says, on a chain that ends within the bound.
  module _ {ℓ} {A : Type ℓ} (off : A) (on_raw : ParsedRecipeAgentDefinition → Option A → A) where
    walk_chain-eq :
        (fuel : ℕ) (stack : List Text) (name : Text) (raw : ParsedRecipeAgentDefinition)
        (base : Option Text)
        → has name stack ≡ false
        → lookup name raws ≡ some raw
        → parent raw ≡ base
        → walk_chain off on_raw raws (suc fuel) stack name
          ≡ walk_base off on_raw raw base
              (λ b. walk_chain off on_raw raws fuel (stack ++ name ∷ []) b)
    unfolding walk_chain walk_raw
    walk_chain-eq fuel stack name raw base free h p =
        let below = walk_chain off on_raw raws fuel (stack ++ name ∷ []) in
        ap (λ b. walk_raw off on_raw b (lookup name raws) below) free
        ∙ ap (λ r. walk_raw off on_raw false r below) h
        ∙ ap (λ b. walk_base off on_raw raw b below) p

  pub mcp_walk :
      (n fuel : ℕ) (stack : List Text) (name : Text) (d : RecipeAgentDefinition)
      → Resolves raws name n d
      → n ≤ fuel
      → Above raws stack n
      → walk_chain none mcp_of_raw raws fuel stack name ≡ d.mcp
  unfolding walk_base resolve_root resolve_over
  mcp_walk n zero stack name d (root _ raw h p) le above = absurd (omega (arith, le))
  mcp_walk n zero stack name d (over _ base raw m e h p r) le above = absurd (omega (arith, le))
  mcp_walk n (suc fuel) stack name d (root _ raw h p) le above =
      walk_chain-eq none mcp_of_raw fuel stack name raw none
        (off_stack raws stack name 1 _ above (root name raw h p)) h p
  mcp_walk n (suc fuel) stack name _ (over _ base raw m e h p r) le above =
      let chain = over name base raw m e h p r in
      walk_chain-eq none mcp_of_raw fuel stack name raw (some base)
        (off_stack raws stack name (suc m) _ above chain) h p
      ∙ ap (λ x. mcp_of_raw raw (some x))
          (mcp_walk m fuel (stack ++ name ∷ []) base e r (omega (arith, le))
            (push-Above raws stack name m _ above chain))

-- The check of an agent's `from` chain finds nothing just if the chain ends after at most 128 agents:
-- then there is neither a cycle nor a missing agent in it, and otherwise there is one or it is longer.
pub no_finding_iff :
    (raws : RawDefinitions) (name : Text)
    → (inheritance_finding raws max_inheritance_depth [] name ≡ none) ↔ (
        (n : ℕ) × (d : RecipeAgentDefinition) × (n ≤ max_inheritance_depth)
        × Resolves raws name n d)
no_finding_iff raws name = (
  inheritance_finding-none raws max_inheritance_depth [] name,
  λ (n, d, le, r).
      Resolves-no_finding raws n max_inheritance_depth [] name d r le ([]-Above raws n),
)
