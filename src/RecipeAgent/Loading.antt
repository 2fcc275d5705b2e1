-- ===== src/RecipeAgent/Loading.antt =====
-- The definitions that the sources of a recipe come to (`definitionsFromSources` of
-- src/recipe-agent.ts).
use pi_recipes.Prelude.{
  ℕ, ◌≤◌, Text, text_eq, text_eq_iff, false, List, [], ◌∷◌, Option, none, some, Bool-cases, ◌≡◌,
  refl, sym, ap, ◌∙◌, subst, arith, ◌⊎◌, inl, inr,
}
use pi_recipes.Prelude.Texts.{has}
use pi_recipes.Prelude.Maps.{lookup, lookup-insert}
use pi_recipes.RecipeAgent.Definition.{RecipeAgentDefinition, ParsedRecipeAgentDefinition}
use pi_recipes.RecipeAgent.Resolution.{
  RawDefinitions, Definitions, Resolved, resolve_definition, resolve_all, raw_definitions_of,
  definitions_from_sources, max_inheritance_depth, add_definition,
}
use pi_recipes.RecipeAgent.Chains.{
  Resolves, root, over, Sound, IsSound, insert-Sound, resolve_definition-IsSound,
}
use pi_recipes.RecipeAgent.Depth.{Above, resolve_definition-some}

lookup-nil : (name : Text) (raw : ParsedRecipeAgentDefinition) → lookup name [] ≡ some raw → ⊥
unfolding lookup
lookup-nil name raw h = cc

lookup-add_other :
    (j name : Text) (o : Option RecipeAgentDefinition) (definitions : Definitions)
    → text_eq j name ≡ false
    → lookup name (add_definition j o definitions) ≡ lookup name definitions
lookup-add_other j name none definitions other = refl
lookup-add_other j name (some d) definitions other =
    lookup-insert j name d definitions ∙ (rw other refl)

module _ (raws : RawDefinitions) where
  add_definition-Sound :
      (name : Text) (result : Resolved) (definitions : Definitions)
      → IsSound raws name result
      → Sound raws definitions
      → Sound raws (add_definition name result.0 definitions)
  add_definition-Sound name (none, kept) definitions is s = s
  add_definition-Sound name (some d, kept) definitions is s =
      let (n, r) = is.found d refl in insert-Sound raws name n d definitions r s

  resolve_all-Sound :
      (rest : RawDefinitions) (kept definitions : Definitions)
      → Sound raws kept
      → Sound raws definitions
      → Sound raws (resolve_all raws rest kept definitions)
  unfolding resolve_all
  resolve_all-Sound [] kept definitions sk sd = sd
  resolve_all-Sound ((name, _) ∷ rest) kept definitions sk sd =
      let result = resolve_definition raws max_inheritance_depth [] name kept in
      let is = resolve_definition-IsSound raws max_inheritance_depth [] name kept sk in
      resolve_all-Sound rest result.1 (add_definition name result.0 definitions) is.kept
        (add_definition-Sound name result definitions is sd)

  []-Sound : Sound raws []
  unfolding lookup
  []-Sound name d e = cc

  []-Above : (n : ℕ) → Above raws [] n
  unfolding has
  []-Above n s m d on r = cc

  module _ (name : Text) (n : ℕ) (d : RecipeAgentDefinition) (r : Resolves raws name n d)
      (le : n ≤ max_inheritance_depth) where
    -- The name is defined, or it is still to be resolved.
    abbrev IsComing : RawDefinitions → Definitions → Type 0
    IsComing rest definitions =
        (lookup name definitions ≡ some d)
        ⊎ ((raw : ParsedRecipeAgentDefinition) × (lookup name rest ≡ some raw))

    resolved_name :
        (j : Text) (kept : Definitions)
        → Sound raws kept
        → j ≡ name
        → (resolve_definition raws max_inheritance_depth [] j kept).0 ≡ some d
    resolved_name j kept s same =
        resolve_definition-some raws n max_inheritance_depth [] j kept d
          (subst (λ k. Resolves raws k n d) (sym same) r) le ([]-Above n) s

    add_definition-IsComing :
        (j : Text) (raw : ParsedRecipeAgentDefinition) (rest : RawDefinitions)
        (kept definitions : Definitions)
        → Sound raws kept
        → IsComing ((j, raw) ∷ rest) definitions
        → IsComing rest (
            add_definition j
              (resolve_definition raws max_inheritance_depth [] j kept).0
              definitions)
    unfolding lookup
    add_definition-IsComing j raw rest kept definitions s c = elim (Bool-cases (text_eq j name)) [
      | inl same ↦ inl (
          ap (λ o. lookup name (add_definition j o definitions))
            (resolved_name j kept s ((text_eq_iff j name).0 same))
          ∙ lookup-insert j name d definitions
          ∙ (rw same refl))
      | inr other ↦ elim c [
        | inl found ↦ inl (lookup-add_other j name _ definitions other ∙ found)
        | inr (raw', h) ↦ inr (raw', (ground (arith, h, other)))
      ]
    ]

    resolve_all-some :
        (rest : RawDefinitions) (kept definitions : Definitions)
        → Sound raws kept
        → IsComing rest definitions
        → lookup name (resolve_all raws rest kept definitions) ≡ some d
    unfolding resolve_all
    resolve_all-some [] kept definitions s (inl found) = found
    resolve_all-some [] kept definitions s (inr (raw, h)) = absurd (lookup-nil name raw h)
    resolve_all-some ((j, raw) ∷ rest) kept definitions s c =
        let result = resolve_definition raws max_inheritance_depth [] j kept in
        resolve_all-some rest result.1 (add_definition j result.0 definitions)
          (resolve_definition-IsSound raws max_inheritance_depth [] j kept s).kept
          (add_definition-IsComing j raw rest kept definitions s c)

-- The definition that `sources` come to for a name, as a chain of bases: of a name that several sources
-- declare, the last one counts.
abbrev pub Chain : List ParsedRecipeAgentDefinition → Text → ℕ → RecipeAgentDefinition → Type 0
Chain sources = Resolves (raw_definitions_of sources [])

-- Every definition that is loaded is the one that its name's chain of `from` comes to, from the agent
-- at its end down, so that no agent of a cycle and none with a missing base is loaded, whatever the
-- order of the files and of the resolutions that the cache remembers.
pub definitions_from_sources-Chain :
    (sources : List ParsedRecipeAgentDefinition) (name : Text) (d : RecipeAgentDefinition)
    → lookup name (definitions_from_sources sources) ≡ some d
    → (n : ℕ) × Chain sources name n d
unfolding definitions_from_sources
definitions_from_sources-Chain sources =
    let raws = raw_definitions_of sources [] in
    resolve_all-Sound raws raws [] [] ([]-Sound raws) ([]-Sound raws)

Resolves-lookup :
    (raws : RawDefinitions) (name : Text) (n : ℕ) (d : RecipeAgentDefinition)
    → Resolves raws name n d
    → (raw : ParsedRecipeAgentDefinition) × (lookup name raws ≡ some raw)
Resolves-lookup raws name n d (root _ raw h p) = (raw, h)
Resolves-lookup raws name n d (over _ base raw m e h p r) = (raw, h)

-- An agent whose chain of `from` ends after at most 128 agents is loaded, as what the chain comes to.
pub Chain-definitions_from_sources :
    (sources : List ParsedRecipeAgentDefinition) (name : Text) (n : ℕ) (d : RecipeAgentDefinition)
    → Chain sources name n d
    → n ≤ max_inheritance_depth
    → lookup name (definitions_from_sources sources) ≡ some d
unfolding definitions_from_sources
Chain-definitions_from_sources sources name n d r le =
    let raws = raw_definitions_of sources [] in
    resolve_all-some raws name n d r le raws [] [] ([]-Sound raws)
      (inr (Resolves-lookup raws name n d r))
