-- ===== src/CliPolicy/Closest.antt =====
-- The suggestion of closestName (src/mcp-cli-policy.ts).
pub mod Nearest
use pi_recipes.Prelude.{
  ℕ, ◌+◌, ◌*◌, ◌/◌, ◌≤◌, min, max, Text, Bool, true, false, ◌&&◌, ◌||◌, List, [], ◌∷◌, map, keep,
  length, Option, none, some, if◌then◌else◌, ltb, leb,
}
use pi_recipes.Prelude.Texts.{truthy, lower_ascii, is_lower, is_upper, is_digit}
use pi_recipes.CliPolicy.Distance.{distance}

-- value.replace(/[^a-z0-9]/gi, "").toLowerCase()
unfoldable pub normalize : Text → Text
normalize value = map lower_ascii (keep (λ c. is_lower c || (is_upper c || is_digit c)) value)

-- The loop over the candidates; none stands for the infinite distance before the first.
unfoldable pub best_of : Text → Option (Text × ℕ) → List Text → Option (Text × ℕ)
best_of source best [] = best
best_of source best (candidate ∷ rest) =
    let d = distance source (normalize candidate) in
    let next : Option (Text × ℕ) = elim best [
      | none ↦ some (candidate, d)
      | some (b, e) ↦ if ltb d e then some (candidate, d) else some (b, e)
    ] in
    best_of source next rest

unfoldable pub closest_name : Text → List Text → Option Text
closest_name input candidates =
    let source = normalize input in
    elim (best_of source none candidates) [
      | none ↦ none
      | some (best, d) ↦
          if truthy best
            && leb d (max 2 (max (length source) (max (length (normalize best)) 1) / 3))
          then some best
          else none
    ]
