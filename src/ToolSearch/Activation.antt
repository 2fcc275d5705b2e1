-- ===== src/ToolSearch/Activation.antt =====
-- What a search enables: the best of the deferred tools, and nothing else.
use mathlib.Core.List.{Permᴰ}
use pi_recipes.Prelude.{
  ℕ, zero, suc, ◌≤◌, Text, Bool, true, List, [], ◌∷◌, keep, take, All, length, length-take,
  if-keeps, ◌≡◌, refl, sym, ap, subst, ◌⊎◌, inl, inr, arith, ◌++◌,
}
use pi_recipes.ToolSearch.{
  RecipeSearchableTool, ScoredTool, comes_first, insert, sort, candidates, matches,
}

module _ {A : Type 0} where
  pub All-take : (P : A → Type 0) (n : ℕ) (xs : List A) → All P xs → All P (take n xs)
  All-take P zero xs h = tt
  All-take P (suc n) [] h = tt
  All-take P (suc n) (x ∷ xs) (p, h) = (p, All-take P n xs h)

  All-of : (P : A → Type 0) → ((x : A) → P x) → (xs : List A) → All P xs
  All-of P f [] = tt
  All-of P f (x ∷ xs) = (f x, All-of P f xs)

  pub All-both :
      (P Q R : A → Type 0)
      → ((x : A) → P x → Q x → R x)
      → (xs : List A) → All P xs
      → All Q xs
      → All R xs
  All-both P Q R f [] h k = tt
  All-both P Q R f (x ∷ xs) (p, h) (q, k) = (f x p q, All-both P Q R f xs h k)

  All-keep :
      (P : A → Type 0) (test : A → Bool) (xs : List A)
      → ((x : A) → test x ≡ true → P x)
      → All P (keep test xs)
  All-keep P test [] f = tt
  All-keep P test (x ∷ xs) f =
      if-keeps (All P) (test x) _ _ (λ e. (f x e, All-keep P test xs f)) (λ e. All-keep P test xs f)

-- Scores that do not rise.
abbrev pub IsRanked : List ScoredTool → Type 0
IsRanked [] = Unit
IsRanked (x ∷ xs) = All (λ y. y.score ≤ x.score) xs × IsRanked xs

take-IsRanked : (n : ℕ) (s : List ScoredTool) → IsRanked s → IsRanked (take n s)
take-IsRanked zero s h = tt
take-IsRanked (suc n) [] h = tt
take-IsRanked (suc n) (x ∷ xs) (h, rest) = (All-take _ n xs h, take-IsRanked n xs rest)

-- `found` are the best of the candidates, as many as the limit lets in: they and the others are the
-- candidates in some order, no other has a higher score than a found one, and there are others only
-- if the limit is reached.
pub record AreBest (limit : ℕ) (found all : List ScoredTool) : Type 0 where
  pub ranked : IsRanked found
  pub within : length found ≤ limit
  pub others : List ScoredTool
  pub whole : Permᴰ all (found ++ others)
  pub above : All (λ other. All (λ m. other.score ≤ m.score) found) others
  pub full : (others ≡ []) ⊎ (length found ≡ limit)

-- What is left when the first `n` are taken.
abbrev drop : ℕ → List ScoredTool → List ScoredTool
drop zero xs = xs
drop (suc n) [] = []
drop (suc n) (x ∷ xs) = drop n xs

same-Permᴰ : (xs : List ScoredTool) → Permᴰ xs xs
same-Permᴰ [] = Permᴰ.nil
same-Permᴰ (x ∷ xs) = Permᴰ.cons refl (same-Permᴰ xs)

take-drop : (n : ℕ) (xs : List ScoredTool) → take n xs ++ drop n xs ≡ xs
take-drop zero xs = refl
take-drop (suc n) [] = refl
take-drop (suc n) (x ∷ xs) = ap (λ l. x ∷ l) (take-drop n xs)

All-drop : (P : ScoredTool → Type 0) (n : ℕ) (xs : List ScoredTool) → All P xs → All P (drop n xs)
All-drop P zero xs h = h
All-drop P (suc n) [] h = tt
All-drop P (suc n) (x ∷ xs) (p, h) = All-drop P n xs h

drop-above :
    (n : ℕ) (s : List ScoredTool)
    → IsRanked s
    → All (λ other. All (λ m. other.score ≤ m.score) (take n s)) (drop n s)
drop-above zero s h = All-of _ (λ c. tt) s
drop-above (suc n) [] h = tt
drop-above (suc n) (x ∷ xs) (h, rest) =
    All-both _ _ _ (λ c below above. (below, above)) (drop n xs) (All-drop _ n xs h)
      (drop-above n xs rest)

take-full : (n : ℕ) (s : List ScoredTool) → (drop n s ≡ []) ⊎ (length (take n s) ≡ n)
take-full zero s = inr refl
take-full (suc n) [] = inl refl
take-full (suc n) (x ∷ xs) = elim (take-full n xs) [
  | inl nothing ↦ inl nothing
  | inr all ↦ inr (ap suc all)
]

module _ (before : Text → Text → Bool) where
  All-insert :
      (P : ScoredTool → Type 0) (x : ScoredTool) (xs : List ScoredTool)
      → P x
      → All P xs
      → All P (insert before x xs)
  unfolding insert
  All-insert P x [] p h = (p, tt)
  All-insert P x (y ∷ ys) p (q, h) =
      if-keeps (All P) (comes_first before x y) _ _ (λ first. (p, (q, h)))
        (λ later. (q, All-insert P x ys p h))

  pub All-sort :
      (P : ScoredTool → Type 0) (xs : List ScoredTool) → All P xs → All P (sort before xs)
  unfolding sort
  All-sort P [] h = tt
  All-sort P (x ∷ xs) (p, h) = All-insert P x (sort before xs) p (All-sort P xs h)

  insert-Permᴰ : (x : ScoredTool) (xs : List ScoredTool) → Permᴰ (x ∷ xs) (insert before x xs)
  unfolding insert
  insert-Permᴰ x [] = Permᴰ.cons refl Permᴰ.nil
  insert-Permᴰ x (y ∷ ys) =
      if-keeps (Permᴰ (x ∷ y ∷ ys)) (comes_first before x y) _ _ (λ first. same-Permᴰ (x ∷ y ∷ ys))
        (λ later. Permᴰ.trans (Permᴰ.swap refl refl) (Permᴰ.cons refl (insert-Permᴰ x ys)))

  sort-Permᴰ : (xs : List ScoredTool) → Permᴰ xs (sort before xs)
  unfolding sort
  sort-Permᴰ [] = Permᴰ.nil
  sort-Permᴰ (x ∷ xs) =
      Permᴰ.trans (Permᴰ.cons refl (sort-Permᴰ xs)) (insert-Permᴰ x (sort before xs))

  insert-IsRanked :
      (x : ScoredTool) (xs : List ScoredTool) → IsRanked xs → IsRanked (insert before x xs)
  unfolding insert
  insert-IsRanked x [] h = (tt, tt)
  insert-IsRanked x (y ∷ ys) (h, rest) =
      if-keeps IsRanked (comes_first before x y) _ _
        (λ first.
          let le : y.score ≤ x.score = ground arith in
          ((le, All-both _ _ (λ z. z.score ≤ x.score) (λ z l k. omega arith) ys h h), (h, rest)))
        (λ later.
          let le : x.score ≤ y.score = ground arith in
          (All-insert (λ z. z.score ≤ y.score) x ys le h, insert-IsRanked x ys rest))

  sort-IsRanked : (xs : List ScoredTool) → IsRanked (sort before xs)
  unfolding sort
  sort-IsRanked [] = tt
  sort-IsRanked (x ∷ xs) = insert-IsRanked x (sort before xs) (sort-IsRanked xs)

  module _ (lower : Text → Text) (query : Text) (limit : ℕ) (active : List Text)
      (deferred : List RecipeSearchableTool) where
    -- The tools that are found are the best of those that could be found, and as many as asked for:
    -- all of them if they are no more than the limit, and otherwise the limit of them, where no tool
    -- that is left out has a higher score than one that is found; and their scores do not rise.
    pub matches_best :
        AreBest limit
          (matches lower before query limit active deferred)
          (candidates lower query active deferred)
    unfolding matches
    matches_best =
        let sorted = sort before (candidates lower query active deferred) in
        let ranked = sort-IsRanked (candidates lower query active deferred) in
        record {
          ranked = take-IsRanked limit sorted ranked;
          within = omega (arith, length-take limit sorted);
          others = drop limit sorted;
          whole =
              subst (Permᴰ (candidates lower query active deferred)) (sym (take-drop limit sorted))
                (sort-Permᴰ (candidates lower query active deferred));
          above = drop-above limit sorted ranked;
          full = take-full limit sorted;
        }
