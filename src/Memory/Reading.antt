-- ===== src/Memory/Reading.antt =====
-- The bounded read of the memory file.
use mathlib.Core.Path.{ap₂}
use pi_recipes.Prelude.{
  ℕ, zero, suc, ◌+◌, ◌-◌, ◌≤◌, ◌<◌, min, Text, ◌≡◌, refl, ap, sym, ◌∙◌, List, [], ◌∷◌, ◌++◌, arith,
  length, length-take, take, drop, ltb, ◌==◌, if-keeps,
}
use pi_recipes.Memory.{read_loop, read_bounded_file}

take-nil : (n : ℕ) → take {A = ℕ} n [] ≡ []
take-nil zero = refl
take-nil (suc n) = refl

drop-nil : (n : ℕ) → drop {A = ℕ} n [] ≡ []
drop-nil zero = refl
drop-nil (suc n) = refl

take-take-drop : (g k : ℕ) (xs : List ℕ) → g ≤ k → take g xs ++ take (k - g) (drop g xs) ≡ take k xs
take-take-drop zero k xs h = let e : k - 0 ≡ k = omega arith in ap (λ n. take n xs) e
take-take-drop (suc g) zero xs h = absurd (omega arith)
take-take-drop (suc g) (suc k) [] h = take-nil (suc k - suc g)
take-take-drop (suc g) (suc k) (x ∷ xs) h = ap (◌∷◌ x) (
    let e : suc k - suc g ≡ k - g = omega arith in
    ap (λ n. take g xs ++ take n (drop g xs)) e ∙ take-take-drop g k xs (omega arith))

drop-add : (a b : ℕ) (xs : List ℕ) → drop (a + b) xs ≡ drop b (drop a xs)
drop-add zero b xs = let e : 0 + b ≡ b = omega arith in ap (λ n. drop n xs) e
drop-add (suc a) b [] = drop-nil (suc a + b) ∙ sym (drop-nil b)
drop-add (suc a) b (x ∷ xs) =
    let e : suc a + b ≡ suc (a + b) = omega arith in ap (λ n. drop n (x ∷ xs)) e ∙ drop-add a b xs

take-length : (n : ℕ) (xs : List ℕ) → take n xs ≡ take (length (take n xs)) xs
take-length zero xs = refl
take-length (suc n) [] = refl
take-length (suc n) (x ∷ xs) = ap (◌∷◌ x) (take-length n xs)

-- A read of some bytes that gives none is at the end of the file.
take-none : (n k : ℕ) (xs : List ℕ) → 0 < n → length (take n xs) ≡ 0 → take k xs ≡ []
take-none n k [] h e = take-nil k
take-none zero k (x ∷ xs) h e = absurd (omega arith)
take-none (suc n) k (x ∷ xs) h e = absurd (omega arith)

read_loop-take :
    (fuel : ℕ) (chunk : ℕ → ℕ) (file : List ℕ) (size offset : ℕ)
    → ((o : ℕ) → 0 < chunk o)
    → size < offset + fuel
    → read_loop fuel chunk file size offset ≡ take (size - offset) (drop offset file)
unfolding read_loop
read_loop-take zero chunk file size offset pos h =
    let none_left : 0 ≡ size - offset = omega arith in ap (λ n. take n (drop offset file)) none_left
read_loop-take (suc fuel) chunk file size offset pos h =
    let xs = drop offset file in
    let n = min (chunk offset) (size - offset) in
    let g = length (take n xs) in
    let wanted = take (size - offset) xs in
    let short : g ≤ n = omega (arith, length-take n xs) in
    if-keeps (λ l. l ≡ wanted) (ltb offset size) _ []
      (λ before.
        if-keeps (λ l. l ≡ wanted) (g == 0) [] _
          (λ ended.
            sym (take-none n (size - offset) xs (ground (arith, pos offset)) (ground arith)))
          (λ going.
            let left_over : size - (offset + g) ≡ (size - offset) - g = omega arith in
            let enough : size < (offset + g) + fuel = ground arith in
            ap₂ ◌++◌ (take-length n xs) (
              read_loop-take fuel chunk file size (offset + g) pos enough
              ∙ ap₂ take left_over (drop-add offset g file))
            ∙ take-take-drop g (size - offset) xs (omega arith)))
      (λ past. let none_left : 0 ≡ size - offset = ground arith in ap (λ k. take k xs) none_left)

take-take : (n m : ℕ) (xs : List ℕ) → n ≤ m → take n (take m xs) ≡ take n xs
take-take zero m xs h = refl
take-take (suc n) zero xs h = absurd (omega arith)
take-take (suc n) (suc m) [] h = refl
take-take (suc n) (suc m) (x ∷ xs) h = ap (◌∷◌ x) (take-take n m xs (omega arith))

-- However the system cuts the reads, so long as each gives at least a byte before the end of the
-- file, the loop reads exactly the first bytes of the file, within the rounds that it is given: the
-- result is the decoded prefix of the file of at most the limit, and it is marked as truncated
-- exactly if the file is longer.
pub read_bounded_file-eq :
    (decode : List ℕ → Text) (chunk : ℕ → ℕ) (file : List ℕ) (max_bytes : ℕ)
    → ((o : ℕ) → 0 < chunk o)
    → ((read_bounded_file decode chunk file max_bytes).0 ≡ decode (take max_bytes file))
      × ((read_bounded_file decode chunk file max_bytes).1 ≡ ltb max_bytes (length file))
unfolding read_bounded_file
read_bounded_file-eq decode chunk file max_bytes pos =
    let got : read_loop (max_bytes + 2) chunk file (max_bytes + 1) 0 ≡ take (max_bytes + 1) file =
      read_loop-take (max_bytes + 2) chunk file (max_bytes + 1) 0 pos (omega arith)
      ∙ (let e : max_bytes + 1 - 0 ≡ max_bytes + 1 = omega arith in ap (λ n. take n file) e) in
    (
      ap (λ b. decode (take max_bytes b)) got
          ∙ ap decode (take-take max_bytes (max_bytes + 1) file (omega arith)),
      ap (λ b. ltb max_bytes (length b)) got ∙ ground (arith, length-take (max_bytes + 1) file),
    )
