-- ===== src/CliPolicy/Closest/Nearest.antt =====
-- The suggestion is a nearest candidate.
use mathlib.Core.List.{Memᴰ}
use pi_recipes.Prelude.{
  ℕ, ◌≤◌, ◌/◌, max, Text, ◌&&◌, ◌≡◌, subst, List, [], ◌∷◌, none, some, All, length, arith,
  if◌then◌else◌, ltb, leb, inl, inr, ◌⊎◌, Option-cases, Bool-cases,
}
use pi_recipes.Prelude.Texts.{truthy}
use pi_recipes.CliPolicy.Distance.{distance}
use pi_recipes.CliPolicy.Closest.{normalize, best_of, closest_name}

-- The candidate's distance from the source.
abbrev pub away : Text → Text → ℕ
away source candidate = distance source (normalize candidate)

-- What the loop comes to from a candidate that it has: the result is measured rightly, is no
-- farther than that candidate and than any of the rest, and is one of them.
record IsBest (source x : Text) (rest : List Text) (b : Text) (d : ℕ) : Type 0 where
  measured : d ≡ away source b
  kept : d ≤ away source x
  near : All (λ c. d ≤ away source c) rest
  among : (b ≡ x) ⊎ Memᴰ b rest

best_of-IsBest :
    (source x : Text) (rest : List Text) (b : Text) (d : ℕ)
    → best_of source (some (x, away source x)) rest ≡ some (b, d)
    → IsBest source x rest b d
unfolding best_of
best_of-IsBest source x [] b d e = record {
  measured = ground arith;
  kept = ground arith;
  near = tt;
  among = inl (ground arith);
}
best_of-IsBest source x (c ∷ rest) b d e = elim (Bool-cases (ltb (away source c) (away source x))) [
  | inl closer ↦
      let ih = best_of-IsBest source c rest b d (rw closer at e) in
      record {
        measured = ih.measured;
        kept = ground (arith, ih.kept);
        near = (ih.kept, ih.near);
        among = inr (elim ih.among [ inl same ↦ Memᴰ.head same | inr later ↦ Memᴰ.tail later ]);
      }
  | inr farther ↦
      let ih = best_of-IsBest source x rest b d (rw farther at e) in
      record {
        measured = ih.measured;
        kept = ih.kept;
        near = (ground (arith, ih.kept), ih.near);
        among = elim ih.among [ inl same ↦ inl same | inr later ↦ inr (Memᴰ.tail later) ];
      }
]

best_of-eq :
    (source : Text) (candidates : List Text) (b : Text) (d : ℕ)
    → best_of source none candidates ≡ some (b, d)
    → (d ≡ away source b) × Memᴰ b candidates × All (λ c. d ≤ away source c) candidates
unfolding best_of
best_of-eq source [] b d e = cc
best_of-eq source (c ∷ rest) b d e =
    let v = best_of-IsBest source c rest b d e in
    (
      v.measured,
      elim v.among [ inl same ↦ Memᴰ.head same | inr later ↦ Memᴰ.tail later ],
      (v.kept, v.near),
    )

offered-eq :
    (x b : Text) (d most : ℕ)
    → (if truthy x && leb d most then some x else none) ≡ some b
    → (x ≡ b) × (d ≤ most)
offered-eq x b d most e = ground arith

abbrev limit : Text → Text → ℕ
limit source b = max 2 (max (length source) (max (length (normalize b)) 1) / 3)

IsNearest-of :
    (source : Text) (candidates : List Text) (x b : Text) (d : ℕ)
    → x ≡ b
    → d ≤ limit source x
    → (d ≡ away source x) × Memᴰ x candidates × All (λ c. d ≤ away source c) candidates
    → Memᴰ b candidates
      × All (λ c. away source b ≤ away source c) candidates
      × (away source b ≤ limit source b)
IsNearest-of source candidates x b d same le (measured, among, near) =
    subst
      (λ y.
        Memᴰ y candidates
        × All (λ c. away source y ≤ away source c) candidates
        × (away source y ≤ limit source y))
      same
      (
        among,
        subst (λ n. All (λ c. n ≤ away source c) candidates) measured near,
        subst (λ n. n ≤ limit source x) measured le,
      )

-- A suggestion is one of the candidates, none of the candidates is nearer to the input, and its
-- distance is at most 2 or a third of the longer of the two normalised names.
pub closest_name-IsNearest :
    (input : Text) (candidates : List Text) (b : Text)
    → closest_name input candidates ≡ some b
    → Memᴰ b candidates
      × All (λ c. away (normalize input) b ≤ away (normalize input) c) candidates
      × (away (normalize input) b
          ≤ max 2 (max (length (normalize input)) (max (length (normalize b)) 1) / 3))
unfolding closest_name
closest_name-IsNearest input candidates b e =
    elim (Option-cases (best_of (normalize input) none candidates)) [
      | inl nothing ↦ cc (rw (nothing, closest_name) at e)
      | inr ((x, d), found) ↦
          let (same, le) = offered-eq x b d _ (rw (found, closest_name) at e) in
          IsNearest-of (normalize input) candidates x b d same le
            (best_of-eq (normalize input) candidates x d found)
    ]
