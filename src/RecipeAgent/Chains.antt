-- ===== src/RecipeAgent/Chains.antt =====
-- What resolution comes to: an agent is resolved just if its chain of bases ends, within the bound,
-- and then to what the chain says (src/recipe-agent.ts).
use pi_recipes.Prelude.{
  ℕ, zero, suc, Text, text_eq, text_eq_iff, Bool, true, false, List, [], ◌∷◌, ◌++◌, Option, none,
  some, Bool-cases, ◌≡◌, refl, sym, ap, ◌∙◌, subst, arith, inl, inr,
}
use pi_recipes.Prelude.Texts.{has}
use pi_recipes.Prelude.Maps.{lookup, insert, lookup-insert}
use pi_recipes.RecipeAgent.Definition.{RecipeAgentDefinition, ParsedRecipeAgentDefinition}
use pi_recipes.RecipeAgent.Resolution.{
  RawDefinitions, Definitions, Resolved, parent, resolve_root, resolve_over, settle, after_base,
  resolve_raw, visit, resolve_definition,
}

-- The definition that a name's chain of bases comes to, and the chain's length.
pub data Resolves (raws : RawDefinitions) : Text → ℕ → RecipeAgentDefinition → Type 0 where
  root :
      (name : Text) (raw : ParsedRecipeAgentDefinition)
      → lookup name raws ≡ some raw
      → parent raw ≡ none
      → Resolves raws name 1 (resolve_root raw)
  over :
      (name base : Text) (raw : ParsedRecipeAgentDefinition) (n : ℕ) (d : RecipeAgentDefinition)
      → lookup name raws ≡ some raw
      → parent raw ≡ some base
      → Resolves raws base n d
      → Resolves raws name (suc n) (resolve_over d raw)

not_both :
    (raw raw' : ParsedRecipeAgentDefinition) (base : Text)
    → raw ≡ raw'
    → parent raw ≡ none
    → parent raw' ≡ some base
    → ⊥
not_both raw raw' base e p p' =
    let q : ◌≡◌ {A = Option Text} none (some base) = sym p ∙ ap (λ r. parent r) e ∙ p' in cc

same_base :
    (raw raw' : ParsedRecipeAgentDefinition) (base base' : Text)
    → raw ≡ raw'
    → parent raw ≡ some base
    → parent raw' ≡ some base'
    → base ≡ base'
same_base raw raw' base base' e p p' =
    let q : some base ≡ some base' = sym p ∙ ap (λ r. parent r) e ∙ p' in cc

module _ (raws : RawDefinitions) where
  pub Resolves-functional :
      (name : Text) (n m : ℕ) (d e : RecipeAgentDefinition)
      → Resolves raws name n d
      → Resolves raws name m e
      → (n ≡ m) × (d ≡ e)
  Resolves-functional name _ _ _ _ (root _ raw h p) (root _ raw' h' p') = (refl, cc)
  Resolves-functional name _ _ _ _ (root _ raw h p) (over _ base raw' n d h' p' r) =
      absurd (not_both raw raw' base (cc) p p')
  Resolves-functional name _ _ _ _ (over _ base raw n d h p r) (root _ raw' h' p') =
      absurd (not_both raw' raw base (cc) p' p)
  Resolves-functional name _ _ _ _ (over _ base raw n d h p r) (over _ base' raw' m e h' p' r') =
      let same_raw : raw ≡ raw' = cc in
      let same : base ≡ base' = same_base raw raw' base base' same_raw p p' in
      let below =
        Resolves-functional base n m d e r (subst (λ b. Resolves raws b m e) (sym same) r') in
      (ap suc below.0, cc)

  -- Every definition that is kept is one that its name resolves to.
  abbrev pub Sound : Definitions → Type 0
  Sound kept =
      (name : Text) (d : RecipeAgentDefinition)
      → lookup name kept ≡ some d
      → (n : ℕ) × Resolves raws name n d

  pub insert-Sound :
      (name : Text) (n : ℕ) (d : RecipeAgentDefinition) (kept : Definitions)
      → Resolves raws name n d
      → Sound kept
      → Sound (insert name d kept)
  insert-Sound name n d kept r s j e h = elim (Bool-cases (text_eq name j)) [
    | inl same ↦
        let found : some d ≡ some e = ground (arith, h, lookup-insert name j d kept, same) in
        let here : name ≡ j = (text_eq_iff name j).0 same in
        (n, subst (λ k. Resolves raws k n e) here (subst (λ x. Resolves raws name n x) (cc) r))
    | inr other ↦ s j e (ground (arith, h, lookup-insert name j d kept, other))
  ]

  -- What a resolution may give: sound definitions, and for its name a definition that it resolves to.
  pub record IsSound (name : Text) (result : Resolved) : Type 0 where
    pub kept : Sound result.1
    pub found : (d : RecipeAgentDefinition) → result.0 ≡ some d → (n : ℕ) × Resolves raws name n d

  missing-IsSound : (name : Text) (kept : Definitions) → Sound kept → IsSound name (none, kept)
  missing-IsSound name kept s = record { kept = s; found = λ d e. cc }

  settle-IsSound :
      (name : Text) (n : ℕ) (d : RecipeAgentDefinition) (kept : Definitions)
      → Resolves raws name n d
      → Sound kept
      → IsSound name (settle name d kept)
  unfolding settle
  settle-IsSound name n d kept r s = record {
    kept = insert-Sound name n d kept r s;
    found = λ e h. (n, subst (λ x. Resolves raws name n x) (cc) r);
  }

  module _ (name : Text) (raw : ParsedRecipeAgentDefinition)
      (is_raw : lookup name raws ≡ some raw) where
    after_base-IsSound :
        (base : Text) (result : Resolved)
        → parent raw ≡ some base
        → IsSound base result
        → IsSound name (after_base name raw result)
    unfolding after_base
    after_base-IsSound base (none, kept) p s = missing-IsSound name kept s.kept
    after_base-IsSound base (some d, kept) p s =
        let (n, r) = s.found d refl in
        settle-IsSound name (suc n) (resolve_over d raw) kept (over name base raw n d is_raw p r)
          s.kept

    resolve_raw-IsSound :
        (base : Option Text) (kept : Definitions) (below : Text → Resolved)
        → parent raw ≡ base
        → Sound kept
        → ((b : Text) → IsSound b (below b))
        → IsSound name (resolve_raw name raw base kept below)
    unfolding resolve_raw
    resolve_raw-IsSound none kept below p s b =
        settle-IsSound name 1 (resolve_root raw) kept (root name raw is_raw p) s
    resolve_raw-IsSound (some base) kept below p s b =
        after_base-IsSound base (below base) p (b base)

  visit-IsSound :
      (name : Text) (known : Option RecipeAgentDefinition) (on_stack : Bool)
      (raw : Option ParsedRecipeAgentDefinition) (kept : Definitions) (below : Text → Resolved)
      → lookup name kept ≡ known
      → lookup name raws ≡ raw
      → Sound kept
      → ((b : Text) → IsSound b (below b))
      → IsSound name (visit name known on_stack raw kept below)
  unfolding visit
  visit-IsSound name (some d) on_stack raw kept below k r s b = record {
    kept = s;
    found = λ e h. s name e (k ∙ h);
  }
  visit-IsSound name none true raw kept below k r s b = missing-IsSound name kept s
  visit-IsSound name none false none kept below k r s b = missing-IsSound name kept s
  visit-IsSound name none false (some raw) kept below k r s b =
      resolve_raw-IsSound name raw r (parent raw) kept below refl s b

  pub resolve_definition-IsSound :
      (n : ℕ) (stack : List Text) (name : Text) (kept : Definitions)
      → Sound kept
      → IsSound name (resolve_definition raws n stack name kept)
  unfolding resolve_definition
  resolve_definition-IsSound zero stack name kept s = record { kept = s; found = s name }
  resolve_definition-IsSound (suc n) stack name kept s =
      visit-IsSound name (lookup name kept) (has name stack) (lookup name raws) kept _ refl refl s
        (λ base. resolve_definition-IsSound n (stack ++ name ∷ []) base kept s)
