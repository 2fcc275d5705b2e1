-- ===== src/RecipeAgent/Depth.antt =====
-- Resolution within the bound finds what a chain comes to (src/recipe-agent.ts).
use pi_recipes.Prelude.{
  ℕ, zero, suc, ◌≤◌, ◌<◌, Text, text_eq, text_eq_iff, Bool, true, false, List, [], ◌∷◌, ◌++◌,
  Option, none, some, Option-cases, Bool-cases, ◌≡◌, refl, sym, ap, ◌∙◌, subst, arith, ◌⊎◌, inl,
  inr,
}
use pi_recipes.Prelude.Texts.{has}
use pi_recipes.Prelude.Maps.{lookup}
use pi_recipes.RecipeAgent.Definition.{RecipeAgentDefinition, ParsedRecipeAgentDefinition}
use pi_recipes.RecipeAgent.Resolution.{
  RawDefinitions, Definitions, Resolved, parent, resolve_root, resolve_over, settle, after_base,
  resolve_raw, visit, resolve_definition,
}
use pi_recipes.RecipeAgent.Chains.{Resolves, root, over, Resolves-functional, Sound}

has-append_one :
    (s t : Text) (xs : List Text) → has s (xs ++ t ∷ []) ≡ true → (has s xs ≡ true) ⊎ (t ≡ s)
unfolding has
has-append_one s t [] h = inr ((text_eq_iff t s).0 (ground arith))
has-append_one s t (x ∷ xs) h = elim (Bool-cases (text_eq x s)) [
  | inl here ↦ inl (ground arith)
  | inr there ↦ elim (has-append_one s t xs (ground arith)) [
    | inl before ↦ inl (ground arith)
    | inr last ↦ inr last
  ]
]

module _ (raws : RawDefinitions) where
  -- Every name on the stack has a longer chain than the one that is resolved.
  abbrev pub Above : List Text → ℕ → Type 0
  Above stack n =
      (s : Text) (m : ℕ) (d : RecipeAgentDefinition)
      → has s stack ≡ true
      → Resolves raws s m d
      → n < m

  pub push-Above :
      (stack : List Text) (name : Text) (n : ℕ) (d : RecipeAgentDefinition)
      → Above stack (suc n)
      → Resolves raws name (suc n) d
      → Above (stack ++ name ∷ []) n
  push-Above stack name n d above r s m x on h = elim (has-append_one s name stack on) [
    | inl before ↦ let far = above s m x before h in omega (arith, far)
    | inr last ↦
        let same =
          (Resolves-functional raws name (suc n) m d x r
            (subst (λ k. Resolves raws k m x) (sym last) h)).0 in
        omega (arith, same)
  ]

  pub off_stack :
      (stack : List Text) (name : Text) (n : ℕ) (d : RecipeAgentDefinition)
      → Above stack n
      → Resolves raws name n d
      → has name stack ≡ false
  off_stack stack name n d above r = elim (Bool-cases (has name stack)) [
    | inl on ↦ let far = above name n d on r in absurd (omega (arith, far))
    | inr off ↦ off
  ]

  known-eq :
      (name : Text) (n : ℕ) (d : RecipeAgentDefinition) (kept : Definitions)
      → Sound raws kept
      → Resolves raws name n d
      → (lookup name kept ≡ none) ⊎ (lookup name kept ≡ some d)
  known-eq name n d kept s r = elim (Option-cases (lookup name kept)) [
    | inl unknown ↦ inl unknown
    | inr (e, known) ↦
        let (m, r') = s name e known in
        inr (known ∙ ap some (sym (Resolves-functional raws name n m d e r r').1))
  ]

  unfolded-eq :
      (name : Text) (n : ℕ) (stack : List Text) (kept : Definitions)
      (known : Option RecipeAgentDefinition) (on : Bool) (raw : Option ParsedRecipeAgentDefinition)
      → lookup name kept ≡ known
      → has name stack ≡ on
      → lookup name raws ≡ raw
      → resolve_definition raws (suc n) stack name kept
        ≡ visit name known on raw kept
            (λ base. resolve_definition raws n (stack ++ name ∷ []) base kept)
  unfolding resolve_definition
  unfolded-eq name n stack kept known on raw k o r = rw (k, o, r) refl

  resolve_raw-eq :
      (name : Text) (raw : ParsedRecipeAgentDefinition) (base : Option Text) (kept : Definitions)
      (below : Text → Resolved)
      → parent raw ≡ base
      → resolve_raw name raw (parent raw) kept below ≡ resolve_raw name raw base kept below
  resolve_raw-eq name raw base kept below p = ap (λ b. resolve_raw name raw b kept below) p

  after_base-some :
      (name : Text) (raw : ParsedRecipeAgentDefinition) (d : RecipeAgentDefinition)
      (result : Resolved)
      → result.0 ≡ some d
      → (after_base name raw result).0 ≡ some (resolve_over d raw)
  unfolding after_base settle
  after_base-some name raw d (none, kept) e = cc
  after_base-some name raw d (some x, kept) e =
      let same : x ≡ d = cc in ap (λ y. some (resolve_over y raw)) same

  -- A definition that is kept already is the result.
  kept-some :
      (name : Text) (fuel : ℕ) (stack : List Text) (kept : Definitions) (d : RecipeAgentDefinition)
      → lookup name kept ≡ some d
      → (resolve_definition raws (suc fuel) stack name kept).0 ≡ some d
  unfolding visit
  kept-some name fuel stack kept d k =
      ap (λ r. r.0) (unfolded-eq name fuel stack kept (some d) _ _ k refl refl)

  module _ (fuel : ℕ) (stack : List Text) (name : Text) (kept : Definitions)
      (raw : ParsedRecipeAgentDefinition) (k : lookup name kept ≡ none)
      (off : has name stack ≡ false) (h : lookup name raws ≡ some raw) where
    root-some :
        parent raw ≡ none
        → (resolve_definition raws (suc fuel) stack name kept).0 ≡ some (resolve_root raw)
    unfolding visit resolve_raw settle
    root-some p =
        ap (λ r. r.0) (unfolded-eq name fuel stack kept none false (some raw) k off h)
        ∙ ap (λ r. r.0) (resolve_raw-eq name raw none kept _ p)

    over-some :
        (base : Text) (d : RecipeAgentDefinition)
        → parent raw ≡ some base
        → (resolve_definition raws fuel (stack ++ name ∷ []) base kept).0 ≡ some d
        → (resolve_definition raws (suc fuel) stack name kept).0 ≡ some (resolve_over d raw)
    unfolding visit resolve_raw
    over-some base d p below =
        ap (λ r. r.0) (unfolded-eq name fuel stack kept none false (some raw) k off h)
        ∙ ap (λ r. r.0) (resolve_raw-eq name raw (some base) kept _ p)
        ∙ after_base-some name raw d (resolve_definition raws fuel (stack ++ name ∷ []) base kept)
            below

  -- A chain that is no longer than the stack may grow is resolved.
  pub resolve_definition-some :
      (n : ℕ) (fuel : ℕ) (stack : List Text) (name : Text) (kept : Definitions)
      (d : RecipeAgentDefinition)
      → Resolves raws name n d
      → n ≤ fuel
      → Above stack n
      → Sound raws kept
      → (resolve_definition raws fuel stack name kept).0 ≡ some d
  resolve_definition-some n zero stack name kept d (root _ raw h p) le above s =
      absurd (omega (arith, le))
  resolve_definition-some n zero stack name kept d (over _ base raw m e h p r) le above s =
      absurd (omega (arith, le))
  resolve_definition-some n (suc fuel) stack name kept _ (root _ raw h p) le above s =
      let chain = root name raw h p in
      elim (known-eq name 1 _ kept s chain) [
        | inr known ↦ kept-some name fuel stack kept _ known
        | inl unknown ↦
            root-some fuel stack name kept raw unknown (off_stack stack name 1 _ above chain) h p
      ]
  resolve_definition-some n (suc fuel) stack name kept _ (over _ base raw m e h p r) le above s =
      let chain = over name base raw m e h p r in
      elim (known-eq name (suc m) _ kept s chain) [
        | inr known ↦ kept-some name fuel stack kept _ known
        | inl unknown ↦
            over-some fuel stack name kept raw unknown (off_stack stack name (suc m) _ above chain)
              h base e p
              (resolve_definition-some m fuel (stack ++ name ∷ []) base kept e r (omega (arith, le))
                (push-Above stack name m _ above chain) s)
      ]
