-- ===== src/McpPolicy/Names.antt =====
-- Normalised server ids: their shape, and that a second pass changes nothing.
use mathlib.Core.List.{reverse, reverse-append, reverse-reverse}
use pi_recipes.Prelude.{
  ℕ, ◌≤◌, Text, Bool, true, false, not, ◌&&◌, ◌≡◌, refl, subst, ap, sym, ◌∙◌, inl, inr, [], ◌∷◌,
  ◌++◌, all, arith, ◌==◌, Bool-cases,
}
use pi_recipes.Prelude.Texts.{trim, truthy, is_space, first, trim-fixed}
use pi_recipes.McpPolicy.{is_id_char, replace_runs, strip_dashes, normalize_mcp_server_id}

abbrev no_dash : ℕ → Bool
no_dash c = not (c == b'-')

first-append : (p : ℕ → Bool) (s t : Text) → first p (s ++ t) ≡ true → first p s ≡ true
first-append p [] t h = refl
first-append p (c ∷ s) t h = h

all-append : (p : ℕ → Bool) (s t : Text) → all p (s ++ t) ≡ (all p s && all p t)
all-append p [] t = refl
all-append p (c ∷ s) t = ground (arith, all-append p s t)

all-reverse : (p : ℕ → Bool) (s : Text) → all p (reverse s) ≡ all p s
all-reverse p [] = refl
all-reverse p (c ∷ s) =
    ap (all p) (reverse-append (c ∷ []) s)
    ∙ ground (arith, all-append p (reverse s) (c ∷ []), all-reverse p s)

all-replace_runs : (inside : Bool) (s : Text) → all is_id_char (replace_runs inside s) ≡ true
unfolding replace_runs
all-replace_runs inside [] = refl
all-replace_runs inside (c ∷ s) = ground (arith, all-replace_runs (not (is_id_char c)) s)

-- What is stripped stands in front.
strip_dashes-prefix : (s : Text) → (p : Text) × (s ≡ p ++ strip_dashes s)
unfolding strip_dashes
strip_dashes-prefix [] = ([], refl)
strip_dashes-prefix (c ∷ s) = elim (Bool-cases (c == b'-')) [
  | inl dash ↦ let (p, e) = strip_dashes-prefix s in (c ∷ p, rw (dash, strip_dashes) (ap (◌∷◌ c) e))
  | inr other ↦ ([], rw (other, strip_dashes) refl)
]

first-strip_dashes : (s : Text) → first no_dash (strip_dashes s) ≡ true
unfolding strip_dashes
first-strip_dashes [] = refl
first-strip_dashes (c ∷ s) = ground (arith, first-strip_dashes s)

all-strip_dashes : (p : ℕ → Bool) (s : Text) → all p s ≡ true → all p (strip_dashes s) ≡ true
unfolding strip_dashes
all-strip_dashes p [] h = refl
all-strip_dashes p (c ∷ s) h = ground (arith, all-strip_dashes p s)

-- A normalised id: characters of [a-z0-9_-] alone, at least one, and no dash at either end.
pub record IsServerId (s : Text) : Type 0 where
  pub nonempty : truthy s ≡ true
  pub chars : all is_id_char s ≡ true
  pub start : first no_dash s ≡ true
  pub stop : first no_dash (reverse s) ≡ true

-- The two strips, the second on the reversed text.
abbrev strip_both : Text → Text
strip_both s = reverse (strip_dashes (reverse (strip_dashes s)))

strip_both-start : (s : Text) → first no_dash (strip_both s) ≡ true
strip_both-start s =
    let t = strip_dashes s in
    let (p, e) = strip_dashes-prefix (reverse t) in
    first-append no_dash (strip_both s) (reverse p) (
      subst (λ x. first no_dash x ≡ true)
        (sym (reverse-reverse t) ∙ ap reverse e ∙ reverse-append p (strip_dashes (reverse t)))
        (first-strip_dashes s))

strip_both-stop : (s : Text) → first no_dash (reverse (strip_both s)) ≡ true
strip_both-stop s =
    subst (λ x. first no_dash x ≡ true)
      (sym (reverse-reverse (strip_dashes (reverse (strip_dashes s)))))
      (first-strip_dashes (reverse (strip_dashes s)))

strip_both-all : (s : Text) → all is_id_char s ≡ true → all is_id_char (strip_both s) ≡ true
strip_both-all s h =
    all-reverse is_id_char (strip_dashes (reverse (strip_dashes s)))
    ∙ all-strip_dashes is_id_char (reverse (strip_dashes s))
        (all-reverse is_id_char (strip_dashes s) ∙ all-strip_dashes is_id_char s h)

-- Whatever the text, the result is a normalised id.
pub normalize-IsServerId :
    (lower : Text → Text) (value : Text) → IsServerId (normalize_mcp_server_id lower value)
unfolding normalize_mcp_server_id
normalize-IsServerId lower value =
    let s = replace_runs false (lower (trim value)) in
    elim (Bool-cases (truthy (strip_both s))) [
      | inl some_left ↦ rw some_left (record {
        nonempty = some_left;
        chars = strip_both-all s (all-replace_runs false (lower (trim value)));
        start = strip_both-start s;
        stop = strip_both-stop s;
      })
      | inr nothing ↦
          rw nothing (record { nonempty = refl; chars = refl; start = refl; stop = refl })
    ]

replace_runs-fixed : (s : Text) → all is_id_char s ≡ true → replace_runs false s ≡ s
unfolding replace_runs
replace_runs-fixed [] h = refl
replace_runs-fixed (c ∷ s) h = ground (arith, replace_runs-fixed s)

strip_dashes-fixed : (s : Text) → first no_dash s ≡ true → strip_dashes s ≡ s
unfolding strip_dashes
strip_dashes-fixed [] h = refl
strip_dashes-fixed (c ∷ s) h = ground arith

id_char-bounds : (c : ℕ) → is_id_char c ≡ true → (45 ≤ c) × (c ≤ 122)
id_char-bounds c h = ground arith

between-not_space : (c : ℕ) → 45 ≤ c → c ≤ 122 → is_space c ≡ false
between-not_space c h k = ground arith

first-not_space : (s : Text) → all is_id_char s ≡ true → first (λ c. not (is_space c)) s ≡ true
first-not_space [] h = refl
first-not_space (c ∷ s) h =
    let good : is_id_char c ≡ true = ground arith in
    ap not (between-not_space c (id_char-bounds c good).0 (id_char-bounds c good).1)

normalize-fixed :
    (lower : Text → Text)
    → ((s : Text) → all is_id_char s ≡ true → lower s ≡ s)
    → (s : Text) → IsServerId s
    → normalize_mcp_server_id lower s ≡ s
unfolding normalize_mcp_server_id
normalize-fixed lower keeps s v =
    let trimmed : trim s ≡ s =
      trim-fixed s (first-not_space s v.chars)
        (first-not_space (reverse s) (all-reverse is_id_char s ∙ v.chars)) in
    let runs : replace_runs false (lower (trim s)) ≡ s =
      ap (λ x. replace_runs false (lower x)) trimmed
      ∙ ap (replace_runs false) (keeps s v.chars)
      ∙ replace_runs-fixed s v.chars in
    let both : strip_both s ≡ s =
      ap (λ x. reverse (strip_dashes (reverse x))) (strip_dashes-fixed s v.start)
      ∙ ap reverse (strip_dashes-fixed (reverse s) v.stop)
      ∙ reverse-reverse s in
    let done : strip_both (replace_runs false (lower (trim s))) ≡ s = ap strip_both runs ∙ both in
    rw (done, v.nonempty)

-- An id that has been normalised is left as it is, so that names in an agent's file and names in
-- the session meet, if lower case leaves the characters [a-z0-9_-] alone.
pub normalize_idem :
    (lower : Text → Text) (value : Text)
    → ((s : Text) → all is_id_char s ≡ true → lower s ≡ s)
    → normalize_mcp_server_id lower (normalize_mcp_server_id lower value)
      ≡ normalize_mcp_server_id lower value
normalize_idem lower value keeps =
    normalize-fixed lower keeps (normalize_mcp_server_id lower value)
      (normalize-IsServerId lower value)
