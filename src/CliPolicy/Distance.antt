-- ===== src/CliPolicy/Distance.antt =====
-- The edit distance of closestName in src/mcp-cli-policy.ts, row by row, is the recursive one.
pub mod Rows
use mathlib.Core.List.{reverse}
use pi_recipes.Prelude.{
  ℕ, suc, ◌+◌, min, Text, Bool, true, false, ◌≡◌, refl, ap, sym, ◌∙◌, List, [], ◌∷◌, ◌++◌, map,
  length, arith, if◌then◌else◌, ◌==◌,
}

-- The rest of one row: `left_cell` is current[j - 1], `diagonal` is previous[j - 1], `above` the
-- cells previous[j], previous[j + 1], … and `right` the characters from j - 1 on.
unfoldable pub row_from : ℕ → ℕ → ℕ → List ℕ → Text → List ℕ
row_from c left_cell diagonal [] right = []
row_from c left_cell diagonal (up ∷ above) [] = []
row_from c left_cell diagonal (up ∷ above) (d ∷ right) =
    let cell = min (left_cell + 1) (min (up + 1) (diagonal + (if c == d then 0 else 1))) in
    cell ∷ row_from c cell up above right

-- One round of the outer loop.
unfoldable pub next_row : ℕ → ℕ → Text → List ℕ → List ℕ
unfolding row_from
next_row i c right [] = i ∷ []
next_row i c right (corner ∷ above) = i ∷ row_from c i corner above right

unfoldable pub first_row : ℕ → Text → List ℕ
first_row n [] = n ∷ []
first_row n (d ∷ right) = n ∷ first_row (n + 1) right

unfoldable pub rows : ℕ → Text → Text → List ℕ → List ℕ
unfolding next_row
rows i [] right previous = previous
rows i (c ∷ left) right previous = rows (i + 1) left right (next_row i c right previous)

-- previous[right.length]
unfoldable pub last_cell : List ℕ → ℕ
last_cell [] = 0
last_cell (x ∷ []) = x
last_cell (x ∷ y ∷ rest) = last_cell (y ∷ rest)

unfoldable pub distance : Text → Text → ℕ
unfolding rows first_row last_cell
distance left right = last_cell (rows 1 left right (first_row 0 right))

-- Levenshtein's distance by its recursion, over texts that are read from their ends.
pub lev : Text → Text → ℕ
lev [] t = length t
lev (a ∷ s) [] = suc (length s)
lev (a ∷ s) (b ∷ t) =
    min (lev s (b ∷ t) + 1) (min (lev (a ∷ s) t + 1) (lev s t + (if a == b then 0 else 1)))
