-- ===== src/Prelude/Lists.antt =====
-- Lists measured by native numbers, and filtered by Boolean tests.
use Prim.Native.Nat.{ℕ, zero, suc, ◌+◌, min}
use mathlib.Core.Path.{◌≡◌, refl, ap}
use mathlib.Core.Logic.{◌⊎◌, ◌≢◌, inl, inr}
use mathlib.Core.Bool.{Bool, true, false, ◌&&◌, ◌||◌}
use mathlib.Core.Option.{Option, none, some}
use mathlib.Core.List.{List, [], ◌∷◌, ◌++◌}
use native.Mathlib.Omega.{arith}
use pi_recipes.Prelude.Tests.{◌==◌, if◌then◌else◌}

module _ {ℓ} {A : Type ℓ} where
  abbrev pub length : List A → ℕ
  length [] = 0
  length (x ∷ xs) = suc (length xs)

  abbrev pub take : ℕ → List A → List A
  take zero xs = []
  take (suc n) [] = []
  take (suc n) (x ∷ xs) = x ∷ take n xs

  abbrev pub drop : ℕ → List A → List A
  drop zero xs = xs
  drop (suc n) [] = []
  drop (suc n) (x ∷ xs) = drop n xs

  -- Array.prototype.some and every
  abbrev pub any : (A → Bool) → List A → Bool
  any p [] = false
  any p (x ∷ xs) = p x || any p xs

  abbrev pub all : (A → Bool) → List A → Bool
  all p [] = true
  all p (x ∷ xs) = p x && all p xs

  -- Array.prototype.filter and find
  abbrev pub keep : (A → Bool) → List A → List A
  keep p [] = []
  keep p (x ∷ xs) = if p x then x ∷ keep p xs else keep p xs

  abbrev pub find : (A → Bool) → List A → Option A
  find p [] = none
  find p (x ∷ xs) = if p x then some x else find p xs

  abbrev pub All {κ} : (A → Type κ) → List A → Type κ
  All P [] = Unit
  All P (x ∷ xs) = P x × All P xs

  pub length-append : (xs ys : List A) → length (xs ++ ys) ≡ length xs + length ys
  length-append [] ys = omega arith
  length-append (x ∷ xs) ys = omega (arith, length-append xs ys)

  pub length-take : (n : ℕ) (xs : List A) → length (take n xs) ≡ min n (length xs)
  length-take zero xs = omega arith
  length-take (suc n) [] = omega arith
  length-take (suc n) (x ∷ xs) = omega (arith, length-take n xs)

  pub take-append-drop : (n : ℕ) (xs : List A) → take n xs ++ drop n xs ≡ xs
  take-append-drop zero xs = refl
  take-append-drop (suc n) [] = refl
  take-append-drop (suc n) (x ∷ xs) = ap (◌∷◌ x) (take-append-drop n xs)

  pub keep-append : (p : A → Bool) (xs ys : List A) → keep p (xs ++ ys) ≡ keep p xs ++ keep p ys
  keep-append p [] ys = refl
  keep-append p (x ∷ xs) ys = ground (arith, keep-append p xs ys)

  pub keep-keep_nil : (p q : A → Bool) (xs : List A) → keep p xs ≡ [] → keep p (keep q xs) ≡ []
  keep-keep_nil p q [] h = refl
  keep-keep_nil p q (x ∷ xs) h = ground (arith, keep-keep_nil p q xs)

module _ {ℓ} {A : Type ℓ} where
  pub List-cases : (xs : List A) → (xs ≡ []) ⊎ ((x : A) × (rest : List A) × (xs ≡ x ∷ rest))
  List-cases [] = inl refl
  List-cases (x ∷ rest) = inr (x, rest, refl)

module _ {ℓ} {A : Type ℓ} where
  abbrev pub get_elem? : List A → ℕ → Option A
  get_elem? [] i = none
  get_elem? (x ∷ xs) zero = some x
  get_elem? (x ∷ xs) (suc i) = get_elem? xs i

  -- A write out of bounds changes nothing.
  abbrev pub set : List A → ℕ → A → List A
  set [] i v = []
  set (x ∷ xs) zero v = v ∷ xs
  set (x ∷ xs) (suc i) v = x ∷ set xs i v

  pub get_elem?-set :
      (xs : List A) (i j : ℕ) (v a : A)
      → get_elem? xs i ≡ some a
      → get_elem? (set xs i v) j ≡ (if i == j then some v else get_elem? xs j)
  get_elem?-set [] i j v a h = cc
  get_elem?-set (x ∷ xs) zero zero v a h = refl
  get_elem?-set (x ∷ xs) zero (suc j) v a h = ground arith
  get_elem?-set (x ∷ xs) (suc i) zero v a h = ground arith
  get_elem?-set (x ∷ xs) (suc i) (suc j) v a h = ground (arith, get_elem?-set xs i j v a h)

  pub get_elem?-append :
      (xs : List A) (v : A) (j : ℕ)
      → get_elem? (xs ++ v ∷ []) j ≡ (if j == length xs then some v else get_elem? xs j)
  get_elem?-append [] v zero = refl
  get_elem?-append [] v (suc j) = ground arith
  get_elem?-append (x ∷ xs) v zero = ground arith
  get_elem?-append (x ∷ xs) v (suc j) = ground (arith, get_elem?-append xs v j)

  pub get_elem?-length : (xs : List A) → get_elem? xs (length xs) ≡ none
  get_elem?-length [] = refl
  get_elem?-length (x ∷ xs) = get_elem?-length xs

  -- How many elements pass a test.
  abbrev pub count : (A → Bool) → List A → ℕ
  count p [] = 0
  count p (x ∷ xs) = (if p x then 1 else 0) + count p xs

  pub count-set :
      (p : A → Bool) (xs : List A) (i : ℕ) (v a : A)
      → get_elem? xs i ≡ some a
      → count p (set xs i v) + (if p a then 1 else 0) ≡ count p xs + (if p v then 1 else 0)
  count-set p [] i v a h = cc
  count-set p (x ∷ xs) zero v a h = ground arith
  count-set p (x ∷ xs) (suc i) v a h = omega (arith, count-set p xs i v a h)

  pub count-append : (p : A → Bool) (xs ys : List A) → count p (xs ++ ys) ≡ count p xs + count p ys
  count-append p [] ys = omega arith
  count-append p (x ∷ xs) ys = omega (arith, count-append p xs ys)

module _ {A : Type 0} where
  -- What stands in a list after a write was written there, or stood there before.
  pub set-cases :
      (xs : List A) (i j : ℕ) (v : A) {a b : A}
      → get_elem? xs i ≡ some a
      → get_elem? (set xs i v) j ≡ some b
      → ((i ≡ j) × (v ≡ b)) ⊎ ((i ≢ j) × (get_elem? xs j ≡ some b))
  set-cases xs i j v {a} h k = ground (arith, get_elem?-set xs i j v a h)

  pub append-cases :
      (xs : List A) (j : ℕ) (v : A) {b : A}
      → get_elem? (xs ++ v ∷ []) j ≡ some b
      → ((j ≡ length xs) × (v ≡ b)) ⊎ ((j ≢ length xs) × (get_elem? xs j ≡ some b))
  append-cases xs j v h = ground (arith, get_elem?-append xs v j)

  pub get_elem?-append_old :
      (xs : List A) (j : ℕ) (v : A) {b : A}
      → get_elem? xs j ≡ some b
      → get_elem? (xs ++ v ∷ []) j ≡ some b
  get_elem?-append_old xs j v {b} h = ground (arith, get_elem?-append xs v j, get_elem?-length xs)

module _ {ℓ} {A : Type ℓ} where
  -- Only empty lists make up an empty list.
  pub append-eq-nil : (xs ys : List A) → xs ++ ys ≡ [] → (xs ≡ []) × (ys ≡ [])
  append-eq-nil [] ys e = (refl, e)
  append-eq-nil (x ∷ xs) ys e = cc
