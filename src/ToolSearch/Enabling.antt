-- ===== src/ToolSearch/Enabling.antt =====
-- What a search may enable, and what the session's active tools are afterwards.
use mathlib.Core.List.{Memᴰ}
use pi_recipes.Prelude.{
  ℕ, ◌<◌, Text, text_eq, text_eq_iff, Bool, true, false, not, ◌||◌, List, [], ◌∷◌, ◌++◌, map,
  Option, All, keep, if-keeps, if◌then◌else◌, ltb, ◌≡◌, refl, arith, sym, subst, ◌∙◌, ap,
}
use pi_recipes.ToolSearch.{
  RecipeSearchableTool, ScoredTool, candidates, matches, execute, score_tool, has_term, distinct,
  or_name, or_default, is_none_of,
}
use pi_recipes.ToolSearch.Activation.{All-take, All-sort, All-both}

has_term-append :
    (n : Text) (xs ys : List Text) → has_term n (xs ++ ys) ≡ (has_term n xs || has_term n ys)
has_term-append n [] ys = refl
has_term-append n (x ∷ xs) ys = ground (arith, has_term-append n xs ys)

has_term-distinct :
    (n : Text) (seen xs : List Text)
    → (has_term n (distinct seen xs) || has_term n seen) ≡ (has_term n xs || has_term n seen)
unfolding distinct
has_term-distinct n seen [] = refl
has_term-distinct n seen (x ∷ xs) =
    let same : text_eq n x ≡ true → has_term n seen ≡ has_term x seen =
      λ e. ap (λ t. has_term t seen) ((text_eq_iff n x).0 e) in
    ground (arith, has_term-distinct n (x ∷ seen) xs, same)

All-self : {A : Type 0} (xs : List A) → All (λ x. Memᴰ x xs) xs
All-self [] = tt
All-self (x ∷ xs) = (
  Memᴰ.head refl,
  All-both _ _ (λ y. Memᴰ y (x ∷ xs)) (λ y m _. Memᴰ.tail m) xs (All-self xs) (All-self xs),
)

-- A tool that may be found: one that matches, of those that have the property and are not active.
abbrev IsCandidate :
    (Text → Text) → Text → List Text → (RecipeSearchableTool → Type 0) → ScoredTool → Type 0
IsCandidate lower query active P m =
    P m.tool
    × (has_term m.tool.name active ≡ false)
    × (m.score ≡ score_tool lower m.tool query)
    × (0 < m.score)

candidates-IsCandidate :
    (lower : Text → Text) (query : Text) (active : List Text) (P : RecipeSearchableTool → Type 0)
    (deferred : List RecipeSearchableTool)
    → All P deferred
    → All (IsCandidate lower query active P) (candidates lower query active deferred)
unfolding candidates
candidates-IsCandidate lower query active P [] h = tt
candidates-IsCandidate lower query active P (tool ∷ rest) (p, h) =
    let below = candidates-IsCandidate lower query active P rest h in
    if-keeps
      (λ l. All (IsCandidate lower query active P) (
        keep (λ (m : ScoredTool). ltb 0 m.score)
          (map (λ (t : RecipeSearchableTool). record { tool = t; score = score_tool lower t query })
            l)))
      (not (has_term tool.name active)) _ _
      (λ inactive.
        if-keeps (All (IsCandidate lower query active P)) (ltb 0 (score_tool lower tool query)) _ _
          (λ scored. ((p, ground arith, refl, ground arith), below)) (λ unscored. below))
      (λ is_active. below)

-- A name that may be enabled: that of a deferred tool that is not active and matches the query.
pub record IsEnabled (lower : Text → Text) (query : Text) (active : List Text)
    (deferred : List RecipeSearchableTool) (name : Text) : Type 0 where
  pub tool : RecipeSearchableTool
  pub named : tool.name ≡ name
  pub is_deferred : Memᴰ tool deferred
  pub is_inactive : has_term name active ≡ false
  pub scores : 0 < score_tool lower tool query

All-map :
    {A B : Type 0} (P : A → Type 0) (Q : B → Type 0) (f : A → B)
    → ((x : A) → P x → Q (f x))
    → (xs : List A) → All P xs
    → All Q (map f xs)
All-map P Q f g [] h = tt
All-map P Q f g (x ∷ xs) (p, h) = (g x p, All-map P Q f g xs h)

has_term-distinct_nil : (n : Text) (xs : List Text) → has_term n (distinct [] xs) ≡ has_term n xs
has_term-distinct_nil n xs = ground (arith, has_term-distinct n [] xs)

has_term-activated :
    (n : Text) (active added : List Text)
    → has_term n (if is_none_of added then active else distinct [] active ++ added)
      ≡ (has_term n active || has_term n added)
has_term-activated n active [] = ground arith
has_term-activated n active (x ∷ xs) =
    ground (arith, has_term-append n (distinct [] active) (x ∷ xs), has_term-distinct_nil n active)

module _ (lower : Text → Text) (before : Text → Text → Bool) (query : Option Text)
    (limit : Option ℕ) (active : List Text) (deferred : List RecipeSearchableTool) where
  -- Each name that a search enables is that of a tool that was deferred, was not active and matches
  -- the query; and afterwards the active tools are those that were active and those enabled, no
  -- other, and none is lost.
  pub execute_enables :
      All
        (IsEnabled lower (or_name query []) active deferred)
        (execute lower before query limit active deferred).0
      × ((n : Text)
          → has_term n (execute lower before query limit active deferred).1 ≡ (
              has_term n active || has_term n (execute lower before query limit active deferred).0))
  unfolding execute matches
  execute_enables =
      let found =
        matches lower before (or_name query []) (or_default limit) (distinct [] active) deferred in
      let query' = or_name query [] in
      let old = distinct [] active in
      let P : RecipeSearchableTool → Type 0 = λ t. Memᴰ t deferred in
      (
        All-map (IsCandidate lower query' old P) (IsEnabled lower query' active deferred)
            (λ (m : ScoredTool). m.tool.name)
            (λ m v. record {
              tool = m.tool;
              named = refl;
              is_deferred = v.0;
              is_inactive = sym (has_term-distinct_nil m.tool.name active) ∙ v.1;
              scores = subst (λ k. 0 < k) v.2 v.3;
            })
            found
            (All-take _ (or_default limit) _ (
              All-sort before _ (candidates lower query' old deferred)
                (candidates-IsCandidate lower query' old P deferred (All-self deferred)))),
        λ n. has_term-activated n active (map (λ (m : ScoredTool). m.tool.name) found),
      )
