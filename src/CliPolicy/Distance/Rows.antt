-- ===== src/CliPolicy/Distance/Rows.antt =====
-- The rows of the table hold the recursive distance of prefixes.
use mathlib.Core.Path.{ap₂}
use mathlib.Core.List.{reverse, reverse_aux}
use pi_recipes.Prelude.{
  ℕ, ◌+◌, min, Text, ◌≡◌, refl, ap, sym, ◌∙◌, List, [], ◌∷◌, length, arith, if◌then◌else◌, ◌==◌,
}
use pi_recipes.CliPolicy.Distance.{row_from, next_row, first_row, rows, last_cell, distance, lev}

-- The cells of a row from a column on: the distances of `s`, a prefix of the left text from its end,
-- to the prefixes of the right one, of which `p` is read already.
cells : Text → Text → Text → List ℕ
cells s p [] = lev s p ∷ []
cells s p (d ∷ right) = lev s p ∷ cells s (d ∷ p) right

-- All but the first.
cells_after : Text → Text → Text → List ℕ
cells_after s p [] = []
cells_after s p (d ∷ right) = cells s (d ∷ p) right

cells_eq : (s p right : Text) → cells s p right ≡ lev s p ∷ cells_after s p right
unfolding cells cells_after
cells_eq s p [] = refl
cells_eq s p (d ∷ right) = refl

-- The recursion in the order in which the program takes the least.
lev_step :
    (c d : ℕ) (s p : Text)
    → min (lev (c ∷ s) p + 1) (min (lev s (d ∷ p) + 1) (lev s p + (if c == d then 0 else 1)))
      ≡ lev (c ∷ s) (d ∷ p)
unfolding lev
lev_step c d s p = grind arith

row_from-cells :
    (c : ℕ) (s p right : Text)
    → row_from c (lev (c ∷ s) p) (lev s p) (cells_after s p right) right
      ≡ cells_after (c ∷ s) p right
unfolding row_from cells_after
row_from-cells c s p [] = refl
row_from-cells c s p (d ∷ right) =
    rw (cells_eq s (d ∷ p) right, cells_eq (c ∷ s) (d ∷ p) right)
      (rw (lev_step c d s p) (ap (◌∷◌ (lev (c ∷ s) (d ∷ p))) (row_from-cells c s (d ∷ p) right)))

lev-nil : (s : Text) → lev s [] ≡ length s
unfolding lev
lev-nil [] = refl
lev-nil (a ∷ s) = refl

omega_suc : (c : ℕ) (s : Text) → length s + 1 ≡ lev (c ∷ s) []
unfolding lev
omega_suc c s = omega arith

next_row-cells :
    (c : ℕ) (s right : Text)
    → next_row (length s + 1) c right (cells s [] right) ≡ cells (c ∷ s) [] right
unfolding next_row
next_row-cells c s right =
    rw (cells_eq s [] right, cells_eq (c ∷ s) [] right)
      (ap₂ ◌∷◌ (omega (arith, lev-nil (c ∷ s))) (rw (omega_suc c s) (row_from-cells c s [] right)))

first_row-cells : (p right : Text) → first_row (length p) right ≡ cells [] p right
unfolding first_row cells lev
first_row-cells p [] = refl
first_row-cells p (d ∷ right) =
    ap (◌∷◌ (length p)) (ap (λ n. first_row n right) (omega arith) ∙ first_row-cells (d ∷ p) right)

rows-cells :
    (s left right : Text)
    → rows (length s + 1) left right (cells s [] right) ≡ cells (reverse_aux left s) [] right
unfolding rows
rows-cells s [] right = refl
rows-cells s (c ∷ left) right =
    ap (rows (length s + 1 + 1) left right) (next_row-cells c s right)
    ∙ ap (λ n. rows n left right (cells (c ∷ s) [] right)) (omega arith)
    ∙ rows-cells (c ∷ s) left right

last_cell-cells : (s p right : Text) → last_cell (cells s p right) ≡ lev s (reverse_aux right p)
unfolding last_cell cells
last_cell-cells s p [] = refl
last_cell-cells s p (d ∷ right) =
    ap (λ l. last_cell (lev s p ∷ l)) (cells_eq s (d ∷ p) right)
    ∙ ap last_cell (sym (cells_eq s (d ∷ p) right))
    ∙ last_cell-cells s (d ∷ p) right

-- The program's distance is the recursive one, of the two texts read from their ends.
pub distance-lev : (left right : Text) → distance left right ≡ lev (reverse left) (reverse right)
unfolding distance
distance-lev left right =
    ap (λ r. last_cell (rows 1 left right r)) (first_row-cells [] right)
    ∙ ap last_cell (rows-cells [] left right)
    ∙ last_cell-cells (reverse left) [] right
