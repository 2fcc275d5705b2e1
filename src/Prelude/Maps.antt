-- ===== src/Prelude/Maps.antt =====
-- Maps keyed by texts, as lists of entries in the order in which the keys were first set.
use mathlib.Core.Path.{◌≡◌, refl, sym, ap, ◌∙◌}
use mathlib.Core.Logic.{◌⊎◌, inl, inr}
use mathlib.Core.Bool.{false}
use mathlib.Core.Option.{Option, none, some}
use mathlib.Core.List.{List, [], ◌∷◌}
use native.Mathlib.Omega.{arith}
use pi_recipes.Prelude.Tests.{if◌then◌else◌, Bool-cases}
use pi_recipes.Prelude.Texts.{Text, text_eq, text_eq_iff, text_eq_refl}

module _ {A : Type 0} where
  unfoldable pub lookup : Text → List (Text × A) → Option A
  lookup k [] = none
  lookup k ((j, a) ∷ rest) = if text_eq j k then some a else lookup k rest

  unfoldable pub insert : Text → A → List (Text × A) → List (Text × A)
  insert k a [] = (k, a) ∷ []
  insert k a ((j, b) ∷ rest) = if text_eq j k then (j, a) ∷ rest else (j, b) ∷ insert k a rest

  pub lookup-insert :
      (k j : Text) (a : A) (m : List (Text × A))
      → lookup j (insert k a m) ≡ (if text_eq k j then some a else lookup j m)
  unfolding lookup insert
  lookup-insert k j a [] = refl
  lookup-insert k j a ((i, b) ∷ m) =
      ground (arith, lookup-insert k j a m, text_eq_iff i k, text_eq_iff i j, text_eq_iff k j)

  pub lookup-insert_here :
      (k : Text) (a : A) (m : List (Text × A)) → lookup k (insert k a m) ≡ some a
  lookup-insert_here k a m = lookup-insert k k a m ∙ (rw (text_eq_refl k) refl)

  pub lookup-insert_other :
      (k j : Text) (a : A) (m : List (Text × A))
      → text_eq k j ≡ false
      → lookup j (insert k a m) ≡ lookup j m
  lookup-insert_other k j a m other = lookup-insert k j a m ∙ (rw other refl)

  -- Where an entry of the map comes from.
  pub lookup-insert_cases :
      (k j : Text) (a b : A) (m : List (Text × A))
      → lookup j (insert k a m) ≡ some b
      → ((k ≡ j) × (a ≡ b)) ⊎ ((text_eq k j ≡ false) × (lookup j m ≡ some b))
  lookup-insert_cases k j a b m e = elim (Bool-cases (text_eq k j)) [
    | inl same ↦
        let here = (text_eq_iff k j).0 same in
        let found : some a ≡ some b =
          sym (lookup-insert_here k a m) ∙ ap (λ i. lookup i (insert k a m)) here ∙ e in
        inl (here, cc)
    | inr other ↦ inr (other, sym (lookup-insert_other k j a m other) ∙ e)
  ]
